-- ===== src/Application/Ingestion/Consistency.antt =====
-- The transactions of the ingestion job processor keep documents and jobs in step.
use enterprise_knowledge_sea.Common.{
  ℕ, ◌≡◌, Option, none, some, ◌⊎◌, inl, inr, arith, ap, ◌∙◌, ◌+ℤ◌, pos,
}
use enterprise_knowledge_sea.Status.{
  deleting, ready, processing, running, succeeded, document_status_eq, job_status_eq,
}
use enterprise_knowledge_sea.Errors.{ok, Result-cases}
use enterprise_knowledge_sea.Domain.Checks.{Datetime}
use enterprise_knowledge_sea.Domain.Document.{Document, start_processing}
use enterprise_knowledge_sea.Domain.Job.{IngestionJob, start}
use enterprise_knowledge_sea.Application.Ingestion.{requeue_failed, begin_attempt, start_found}
use enterprise_knowledge_sea.Persistence.Records.{document_to_record}
use enterprise_knowledge_sea.Persistence.Session.{Database, DatabaseLaws}
use enterprise_knowledge_sea.Persistence.Repositories.{save_document, save_job}
use enterprise_knowledge_sea.Application.Ingestion.Pairs.{Pair, Stored}
use enterprise_knowledge_sea.Application.Ingestion.Saving.{
  Next, written, save_document_stored, save_job_after,
}
use enterprise_knowledge_sea.Application.Ingestion.Steps.{
  start_both, requeue_both, Next-trans, Next-refl,
}

module _ (clock : ℕ → Datetime) (d d' : Document) (j j' : IngestionJob) (p : Pair d j) where
  pub requeue_failed_returned :
      requeue_failed clock j d ≡ ok (j', d') → Next d j d' j' × (j'.attempt_count ≡ j.attempt_count)
  unfolding requeue_failed
  requeue_failed_returned h =
      ground (arith, requeue_both (clock 1) (clock 0) d d' j j' p, Next-refl d j p)

module _ {S : Type 0} (db : Database S) (laws : DatabaseLaws db) where
  -- What an attempt that begins has written.
  pub record Begun (d : Document) (j : IngestionJob) (s t : S) : Type 0 where
    pub document : Document
    pub job : IngestionJob
    pub next : Next d j document job
    pub document_status : document.status ≡ processing
    pub job_status : job.status ≡ running
    pub attempt : job.attempt_count ≡ j.attempt_count +ℤ pos 1
    pub state : t ≡ written db laws document job s

  module _ (clock : ℕ → Datetime) (i : ℕ) (s : S) where
    save_both :
        (d d' : Document) (j j' : IngestionJob)
        → Stored db i d j s
        → Next d j d' j'
        → (save_document db d' s ≡ ok (tt, db.write_document (document_to_record d') s))
          × (save_job db j' (db.write_document (document_to_record d') s)
              ≡ ok (tt, written db laws d' j' s))
    save_both d d' j j' st n = (
      save_document_stored db laws d d' s st.document_row n.document_id n.document_created,
      save_job_after db laws i d d' j j' s st n,
    )

    -- the result, with what the two domain calls returned
    begun :
        (d d1 d' : Document) (j j1 j' : IngestionJob) (r : Option ℕ) (t : S)
        → Stored db i d j s
        → Next d j d1 j1
        → j1.attempt_count ≡ j.attempt_count
        → start_processing none (clock 2) d1 ≡ ok d'
        → start none (clock 3) j1 ≡ ok j'
        → r ≡ some d1.id
        → t ≡ written db laws d' j' s
        → (r ≡ some d.id) × Begun d j s t
    begun d d1 d' j j1 j' r t st n e f g h h' =
        let (m, a, b, c) = start_both (clock 2) (clock 3) d1 d' j1 j' n.pair f g in
        (
          h ∙ ap some n.document_id,
          record {
            document = d';
            job = j';
            next = Next-trans d d1 d' j j1 j' n m;
            document_status = a;
            job_status = b;
            attempt = c ∙ ap (λ k. k +ℤ pos 1) e;
            state = h';
          },
        )

    begun_state :
        (d1 d' : Document) (j1 j' : IngestionJob) (r : Option ℕ) (t : S)
        → begin_attempt db clock j1 d1 s ≡ ok (r, t)
        → start_processing none (clock 2) d1 ≡ ok d'
        → start none (clock 3) j1 ≡ ok j'
        → save_document db d' s ≡ ok (tt, db.write_document (document_to_record d') s)
        → save_job db j' (db.write_document (document_to_record d') s)
          ≡ ok (tt, written db laws d' j' s)
        → (r ≡ some d1.id) × (t ≡ written db laws d' j' s)
    unfolding begin_attempt
    begun_state d1 d' j1 j' r t h f g e1 e2 = ground arith

    begin_attempt_returned :
        (d d1 : Document) (j j1 : IngestionJob) (r : Option ℕ) (t : S)
        → Stored db i d j s
        → Next d j d1 j1
        → j1.attempt_count ≡ j.attempt_count
        → begin_attempt db clock j1 d1 s ≡ ok (r, t)
        → (r ≡ some d.id) × Begun d j s t
    unfolding begin_attempt
    begin_attempt_returned d d1 j j1 r t st n e h =
        elim (Result-cases (start_processing none (clock 2) d1)) [
          | inr (x, f) ↦ ground arith
          | inl (d', f) ↦ elim (Result-cases (start none (clock 3) j1)) [
            | inr (x, g) ↦ ground arith
            | inl (j', g) ↦
                let (m, _, _, _) = start_both (clock 2) (clock 3) d1 d' j1 j' n.pair f g in
                let (e1, e2) = save_both d d' j j' st (Next-trans d d1 d' j j1 j' n m) in
                let (a, b) = begun_state d1 d' j1 j' r t h f g e1 e2 in
                begun d d1 d' j j1 j' r t st n e f g a b
          ]
        ]

    -- The statuses that `_start_job` leaves alone.
    abbrev pub IsLeftAlone : Document → IngestionJob → Type 0
    IsLeftAlone d j = (d.status ≡ deleting) ⊎ ((d.status ≡ ready) × (j.status ≡ succeeded))

    -- the two ways out of `start_found`
    found_ways :
        (d d1 : Document) (j j1 : IngestionJob) (r : Option ℕ) (t : S)
        → start_found db clock j d s ≡ ok (r, t)
        → requeue_failed clock j d ≡ ok (j1, d1)
        → ((r ≡ none) × (t ≡ s) × IsLeftAlone d j) ⊎ (begin_attempt db clock j1 d1 s ≡ ok (r, t))
    unfolding start_found document_status_eq job_status_eq
    found_ways d d1 j j1 r t h f = ground arith

    pub start_found_returned :
        (d : Document) (j : IngestionJob) (r : Option ℕ) (t : S)
        → Stored db i d j s
        → start_found db clock j d s ≡ ok (r, t)
        → ((r ≡ none) × (t ≡ s) × IsLeftAlone d j) ⊎ ((r ≡ some d.id) × Begun d j s t)
    unfolding start_found document_status_eq job_status_eq
    start_found_returned d j r t st h = elim (Result-cases (requeue_failed clock j d)) [
      | inr (x, f) ↦ inl (ground arith)
      | inl ((j1, d1), f) ↦
          let (n, e) = requeue_failed_returned clock d d1 j j1 st.pair f in
          elim (found_ways d d1 j j1 r t h f) [
            | inl way ↦ inl way
            | inr way ↦ inr (begin_attempt_returned d d1 j j1 r t st n e way)
          ]
    ]
