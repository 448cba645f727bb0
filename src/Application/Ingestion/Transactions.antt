-- ===== src/Application/Ingestion/Transactions.antt =====
-- Each transaction of the job processor over a consistent database.
use enterprise_knowledge_sea.Common.{
  ℕ, suc, ◌≡◌, refl, Option, none, some, Text, ◌⊎◌, inl, inr, arith, sym, ◌∙◌, subst, List, [], map,
  Option-cases,
}
use enterprise_knowledge_sea.Errors.{Error, ok, err, Result-cases}
use enterprise_knowledge_sea.Domain.Checks.{Datetime}
use enterprise_knowledge_sea.Domain.Document.{Document}
use enterprise_knowledge_sea.Domain.Job.{IngestionJob}
use enterprise_knowledge_sea.Domain.Chunk.{Chunk}
use enterprise_knowledge_sea.Persistence.Records.{chunk_to_record}
use enterprise_knowledge_sea.Persistence.Session.{Database, DatabaseLaws, transaction, Tx}
use enterprise_knowledge_sea.Persistence.Repositories.{get_document, get_job}
use enterprise_knowledge_sea.Application.Ingestion.{
  start_job, start_found, finish_job, mark_failed, fail_document, fail_job,
}
use enterprise_knowledge_sea.Application.Ingestion.Pairs.{
  Stored, IsConsistent, SameRows, replaced-Stored, same-Stored, same-IsConsistent,
}
use enterprise_knowledge_sea.Application.Ingestion.Saving.{
  Next, written, get_job-Stored, get_document-Stored, written-IsConsistent, written-Replaced,
}
use enterprise_knowledge_sea.Application.Ingestion.Consistency.{Begun, start_found_returned}
use enterprise_knowledge_sea.Application.Ingestion.Finish.{
  replaced, finish_job_returned, mark_failed_returned,
}

-- A transaction rolls back, or commits what its body returned.
pub transaction-cases :
    {S A : Type 0} (db : Database S) (body : Tx S A) (s : S)
    → ((e : Error) × (transaction db body s ≡ (err e, s)))
      ⊎ ((a : A) × (t : S) × (body s ≡ ok (a, t)) × (transaction db body s ≡ (ok a, t)))
unfolding transaction
transaction-cases db body s = elim (Result-cases (body s)) [
  | inr (e, f) ↦ inl (e, ground arith)
  | inl ((a, t), f) ↦ elim (Option-cases (db.commit s t)) [
    | inl g ↦ inr (a, t, f, ground arith)
    | inr (e, g) ↦ inl (e, ground arith)
  ]
]

pub transaction_keeps :
    {S A : Type 0} (db : Database S) (body : Tx S A) (s : S) (P : S → Type 0)
    → P s
    → ((a : A) (t : S) → body s ≡ ok (a, t) → P t)
    → P (transaction db body s).1
transaction_keeps db body s P p f = elim (transaction-cases db body s) [
  | inl (e, g) ↦ subst (λ r. P r.1) (sym g) p
  | inr (a, t, h, g) ↦ subst (λ r. P r.1) (sym g) (f a t h)
]

module _ {S : Type 0} (db : Database S) (laws : DatabaseLaws db) where
  -- The job with an id is about the document with an id, or both are gone.
  pub data IsAbout (i e : ℕ) (s : S) : Type 0 where
    stored : (d : Document) (j : IngestionJob) → Stored db i d j s → d.id ≡ e → IsAbout i e s
    gone : db.find_job i s ≡ none → db.find_document e s ≡ none → IsAbout i e s

  pub record Kept (i e : ℕ) (s : S) : Type 0 where
    pub consistent : IsConsistent db s
    pub about : IsAbout i e s

  pub written-Kept :
      (i : ℕ) (d d' : Document) (j j' : IngestionJob) (s : S)
      → IsConsistent db s
      → Stored db i d j s
      → Next d j d' j'
      → Kept i d.id (written db laws d' j' s)
  written-Kept i d d' j j' s c st n = record {
    consistent = written-IsConsistent db laws s i d d' j j' c st n;
    about =
        stored d' j'
          (replaced-Stored db s (written db laws d' j' s) c i d d' j j' st n.pair n.document_id
            n.job_id (written-Replaced db laws d' j' s))
          n.document_id;
  }

  same-Kept : (i e : ℕ) (s t : S) → SameRows db s t → Kept i e s → Kept i e t
  same-Kept i e s t same k = record {
    consistent = same-IsConsistent db s t same k.consistent;
    about = elim k.about [
      | stored d j st f ↦ stored d j (same-Stored db s t same i d j st) f
      | gone f g ↦ gone (same.jobs i ∙ f) (same.documents e ∙ g)
    ];
  }

  pub replaced-SameRows :
      (e : ℕ) (chunks : List Chunk) (s : S) → SameRows db s (replaced db laws e chunks s)
  replaced-SameRows e chunks s = record {
    jobs = λ i.
        laws.find_job-add_chunks (map chunk_to_record chunks) i (db.drop_chunks e s)
        ∙ laws.find_job-drop_chunks e i s;
    documents = λ d.
        laws.find_document-add_chunks (map chunk_to_record chunks) d (db.drop_chunks e s)
        ∙ laws.find_document-drop_chunks e d s;
  }

  pub revision-SameRows : (n : ℕ) (s : S) → SameRows db s (db.write_revision n s)
  revision-SameRows n s = record {
    jobs = λ i. laws.find_job-write_revision n i s;
    documents = λ d. laws.find_document-write_revision n d s;
  }

  module _ (clock : ℕ → Datetime) (i : ℕ) where
    pub start_job_state :
        (d : Document) (j : IngestionJob) (s : S)
        → Stored db i d j s
        → start_job db clock i s ≡ start_found db clock j d s
    unfolding start_job
    start_job_state d j s st =
        let a = get_job-Stored db laws i d j s st in
        let b =
          subst (λ k. get_document db k s ≡ ok (some d, s)) (sym st.pair.owner)
            (get_document-Stored db laws i d j s st) in
        ground arith

    -- What `_start_job` returned, in terms of the job and the document it found.
    pub start_job_returned :
        (s t : S) (r : Option ℕ)
        → IsConsistent db s
        → start_job db clock i s ≡ ok (r, t)
        → ((r ≡ none) × (t ≡ s))
          ⊎ ((d : Document) × (j : IngestionJob) × Stored db i d j s
              × (r ≡ some d.id)
              × Begun db laws d j s t)
    unfolding start_job get_job
    start_job_returned s t r c h = elim (Option-cases (db.find_job i s)) [
      | inl f ↦ ground arith
      | inr (row, f) ↦
          let (d, j, e, st) = c.backed i row f in
          elim (start_found_returned db laws clock i s d j r t st
            (sym (start_job_state d j s st) ∙ h)) [
              | inl (g, g', alone) ↦ inl (g, g')
              | inr (g, begun) ↦ inr (d, j, st, g, begun)
            ]
    ]

    finish_keeps_stored :
        (d : Document) (j : IngestionJob) (chunks : List Chunk) (s : S)
        → IsConsistent db s
        → Stored db i d j s
        → Kept i d.id (transaction db (finish_job db clock d.id i chunks) s).1
    finish_keeps_stored d j chunks s c st =
        let k : Kept i d.id s = record { consistent = c; about = stored d j st refl } in
        transaction_keeps db (finish_job db clock d.id i chunks) s (Kept i d.id) k (λ a t h.
          let f = finish_job_returned db laws clock i chunks s d j t st h in
          let mid =
            same-Kept i d.id s (replaced db laws d.id chunks s) (replaced-SameRows d.id chunks s)
              k in
          let k' =
            written-Kept i d f.document j f.job (replaced db laws d.id chunks s) mid.consistent
              (same-Stored db s (replaced db laws d.id chunks s) (replaced-SameRows d.id chunks s) i
                d j st)
              f.next in
          subst (Kept i d.id) (sym f.state)
            (same-Kept i d.id _ _ (revision-SameRows (suc f.before) _) k'))

    pub finish_keeps_gone :
        (e : ℕ) (chunks : List Chunk) (s : S)
        → db.find_document e s ≡ none
        → (transaction db (finish_job db clock e i chunks) s).1 ≡ s
    unfolding transaction finish_job get_document
    finish_keeps_gone e chunks s f = ground arith

    pub finish_keeps :
        (e : ℕ) (chunks : List Chunk) (s : S)
        → Kept i e s
        → Kept i e (transaction db (finish_job db clock e i chunks) s).1
    finish_keeps e chunks s k = elim k.about [
      | stored d j st f ↦
          subst (λ x. Kept i x (transaction db (finish_job db clock x i chunks) s).1) f
            (finish_keeps_stored d j chunks s k.consistent st)
      | gone f g ↦ subst (Kept i e) (sym (finish_keeps_gone e chunks s g)) k
    ]

    mark_keeps_stored :
        (d : Document) (j : IngestionJob) (code : Text) (s : S)
        → IsConsistent db s
        → Stored db i d j s
        → Kept i d.id (transaction db (mark_failed db clock d.id i code) s).1
    mark_keeps_stored d j code s c st =
        let k : Kept i d.id s = record { consistent = c; about = stored d j st refl } in
        transaction_keeps db (mark_failed db clock d.id i code) s (Kept i d.id) k (λ a t h.
          elim (mark_failed_returned db laws clock i [] s d j code t st h) [
            | inl e ↦ subst (Kept i d.id) (sym e) k
            | inr f ↦
                subst (Kept i d.id) (sym f.state)
                  (written-Kept i d f.document j f.job s c st f.next)
          ])

    pub mark_keeps_gone :
        (e : ℕ) (code : Text) (s : S)
        → db.find_document e s ≡ none
        → db.find_job i s ≡ none
        → (transaction db (mark_failed db clock e i code) s).1 ≡ s
    unfolding transaction mark_failed fail_document fail_job get_document get_job
    mark_keeps_gone e code s f g = ground arith

    pub mark_keeps :
        (e : ℕ) (code : Text) (s : S)
        → Kept i e s
        → Kept i e (transaction db (mark_failed db clock e i code) s).1
    mark_keeps e code s k = elim k.about [
      | stored d j st f ↦
          subst (λ x. Kept i x (transaction db (mark_failed db clock x i code) s).1) f
            (mark_keeps_stored d j code s k.consistent st)
      | gone f g ↦ subst (Kept i e) (sym (mark_keeps_gone e code s g f)) k
    ]
