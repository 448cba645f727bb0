-- ===== src/Application/Ingestion/Run.antt =====
-- A whole run of the job processor over a consistent database.
use enterprise_knowledge_sea.Common.{
  ℕ, ◌≡◌, Option, some, ◌⊎◌, inl, inr, arith, sym, ap, ◌∙◌, subst, List, Option-cases,
}
use enterprise_knowledge_sea.Errors.{Error, Result, ok, Result-cases}
use enterprise_knowledge_sea.Domain.Checks.{Datetime}
use enterprise_knowledge_sea.Domain.Document.{Document}
use enterprise_knowledge_sea.Domain.Chunk.{Chunk}
use enterprise_knowledge_sea.Persistence.Session.{Database, DatabaseLaws, transaction}
use enterprise_knowledge_sea.Persistence.Repositories.{get_document}
use enterprise_knowledge_sea.Application.Ingestion.{
  start_job, finish_job, mark_failed, failure_code, Ports, Interference, index_chunks, attempt,
  give_up, process,
}
use enterprise_knowledge_sea.Application.Ingestion.Pairs.{IsConsistent}
use enterprise_knowledge_sea.Application.Ingestion.Saving.{written, written-IsConsistent}
use enterprise_knowledge_sea.Application.Ingestion.Transactions.{
  Kept, transaction-cases, finish_keeps, mark_keeps, start_job_returned, written-Kept,
  transaction_keeps,
}

module _ {S V Vector : Type 0} (db : Database S) (laws : DatabaseLaws db) (ports : Ports V Vector)
    (others : Interference S) (clock : ℕ → Datetime) (i : ℕ) where
  -- What the other sessions commit keeps the rows consistent and the job with its document.
  pub record AreCareful : Type 0 where
    pub load : (e : ℕ) (s : S) → Kept db laws i e s → Kept db laws i e (others.before_load s)
    pub finish : (e : ℕ) (s : S) → Kept db laws i e s → Kept db laws i e (others.before_finish s)
    pub mark : (e : ℕ) (s : S) → Kept db laws i e s → Kept db laws i e (others.before_mark s)

  index_chunks_state :
      (e : ℕ) (d : Document) (chunks : List Chunk) (s : S) (v : V)
      → ((index_chunks db ports others clock e i d chunks s v).1 ≡ s)
        ⊎ ((index_chunks db ports others clock e i d chunks s v).1
            ≡ (transaction db (finish_job db clock e i chunks) (others.before_finish s)).1)
  unfolding index_chunks
  index_chunks_state e d chunks s v = ground arith

  -- the first transaction of an attempt
  abbrev load : ℕ → S → Result (Option Document) × S
  load e s = transaction db (get_document db e) (others.before_load s)

  attempt_state :
      (e : ℕ) (s : S) (v : V)
      → ((attempt db ports others clock e i s v).1 ≡ (load e s).1)
        ⊎ ((d : Document) × (chunks : List Chunk) × ((load e s).0 ≡ ok (some d))
            × ((attempt db ports others clock e i s v).1
                ≡ (index_chunks db ports others clock e i d chunks (load e s).1 v).1))
  unfolding attempt
  attempt_state e s v = elim (Result-cases (load e s).0) [
    | inr (x, f) ↦ inl (ground arith)
    | inl (found, f) ↦ elim (Option-cases found) [
      | inl g ↦ inl (ground arith)
      | inr (d, g) ↦ elim (Result-cases (ports.open_and_prepare d)) [
        | inr (x, h) ↦ inl (ground arith)
        | inl (chunks, h) ↦ inr (d, chunks, f ∙ ap ok g, ground arith)
      ]
    ]
  ]

  get_document_state :
      (e : ℕ) (s t : S) (found : Option Document) → get_document db e s ≡ ok (found, t) → t ≡ s
  unfolding get_document
  get_document_state e s t found h = ground arith

  load_keeps : (e : ℕ) (s : S) → (load e s).1 ≡ others.before_load s
  load_keeps e s = elim (transaction-cases db (get_document db e) (others.before_load s)) [
    | inl (x, f) ↦ ap (λ r. r.1) f
    | inr (found, t, h, f) ↦ ap (λ r. r.1) f ∙ get_document_state e (others.before_load s) t found h
  ]

  give_up_state :
      (e : ℕ) (x : Error) (s : S) (v : V)
      → (give_up db ports others clock e i x s v).1
        ≡ (transaction db (mark_failed db clock e i (failure_code x)) (others.before_mark s)).1
  unfolding give_up
  give_up_state e x s v = ground arith

  module _ (careful : AreCareful) where
    index_chunks_keeps :
        (e : ℕ) (d : Document) (chunks : List Chunk) (s : S) (v : V)
        → Kept db laws i e s
        → Kept db laws i e (index_chunks db ports others clock e i d chunks s v).1
    index_chunks_keeps e d chunks s v k = elim (index_chunks_state e d chunks s v) [
      | inl f ↦ subst (Kept db laws i e) (sym f) k
      | inr f ↦
          subst (Kept db laws i e) (sym f)
            (finish_keeps db laws clock i e chunks (others.before_finish s) (careful.finish e s k))
    ]

    attempt_keeps :
        (e : ℕ) (s : S) (v : V)
        → Kept db laws i e s
        → Kept db laws i e (attempt db ports others clock e i s v).1
    attempt_keeps e s v k =
        let here = subst (Kept db laws i e) (sym (load_keeps e s)) (careful.load e s k) in
        elim (attempt_state e s v) [
          | inl f ↦ subst (Kept db laws i e) (sym f) here
          | inr (d, chunks, f, g) ↦
              subst (Kept db laws i e) (sym g) (index_chunks_keeps e d chunks (load e s).1 v here)
        ]

    give_up_keeps :
        (e : ℕ) (x : Error) (s : S) (v : V)
        → Kept db laws i e s
        → Kept db laws i e (give_up db ports others clock e i x s v).1
    give_up_keeps e x s v k =
        subst (Kept db laws i e) (sym (give_up_state e x s v)) (
          mark_keeps db laws clock i e (failure_code x) (others.before_mark s) (careful.mark e s k))

    -- the first transaction of a run
    abbrev started : S → Result (Option ℕ) × S
    started s = transaction db (start_job db clock i) s

    process_state :
        (s : S) (v : V)
        → ((process db ports others clock i s v).1 ≡ (started s).1)
          ⊎ ((e : ℕ) × ((started s).0 ≡ ok (some e))
              × (((process db ports others clock i s v).1
                    ≡ (attempt db ports others clock e i (started s).1 v).1)
                  ⊎ ((x : Error) × ((process db ports others clock i s v).1
                        ≡ (give_up db ports others clock e i x
                            (attempt db ports others clock e i (started s).1 v).1
                            (attempt db ports others clock e i (started s).1 v).2).1))))
    unfolding process
    process_state s v = elim (Result-cases (started s).0) [
      | inr (x, f) ↦ inl (ground arith)
      | inl (found, f) ↦ elim (Option-cases found) [
        | inl g ↦ inl (ground arith)
        | inr (e, g) ↦ elim (Result-cases (attempt db ports others clock e i (started s).1 v).0) [
          | inl (done, h) ↦ inr (e, f ∙ ap ok g, inl (ground arith))
          | inr (x, h) ↦ inr (e, f ∙ ap ok g, inr (x, ground arith))
        ]
      ]
    ]

    started_keeps :
        (s : S) (e : ℕ)
        → IsConsistent db s
        → (started s).0 ≡ ok (some e)
        → Kept db laws i e (started s).1
    started_keeps s e c h = elim (transaction-cases db (start_job db clock i) s) [
      | inl (x, f) ↦ ground arith
      | inr (r, t, g, f) ↦ elim (start_job_returned db laws clock i s t r c g) [
        | inl (a, b) ↦ ground arith
        | inr (d, j, st, a, begun) ↦
            let k = written-Kept db laws i d begun.document j begun.job s c st begun.next in
            let id : d.id ≡ e = ground arith in
            subst (λ x. Kept db laws i e x.1) (sym f)
              (subst (Kept db laws i e) (sym begun.state)
                (subst (λ x. Kept db laws i x (written db laws begun.document begun.job s)) id k))
      ]
    ]

    started-IsConsistent : (s : S) → IsConsistent db s → IsConsistent db (started s).1
    started-IsConsistent s c =
        transaction_keeps db (start_job db clock i) s (IsConsistent db) c (λ r t h.
          elim (start_job_returned db laws clock i s t r c h) [
            | inl (a, b) ↦ subst (IsConsistent db) (sym b) c
            | inr (d, j, st, a, begun) ↦
                subst (IsConsistent db) (sym begun.state)
                  (written-IsConsistent db laws s i d begun.document j begun.job c st begun.next)
          ])

    -- Over a database that meets the laws, where the rows are consistent when a run begins and
    -- what the other sessions commit in between keeps them so with the job about its document, the
    -- rows are consistent when the run ends, however it ends.
    pub process-IsConsistent :
        (s : S) (v : V)
        → IsConsistent db s
        → IsConsistent db (process db ports others clock i s v).1
    process-IsConsistent s v c = elim (process_state s v) [
      | inl f ↦ subst (IsConsistent db) (sym f) (started-IsConsistent s c)
      | inr (e, f, way) ↦
          let k = attempt_keeps e (started s).1 v (started_keeps s e c f) in
          elim way [
            | inl g ↦ subst (IsConsistent db) (sym g) k.consistent
            | inr (x, g) ↦ subst (IsConsistent db) (sym g) (give_up_keeps e x _ _ k).consistent
          ]
    ]
