-- ===== src/System/Effects.antt =====
-- Each transaction of the three services as a change of the rows.
use enterprise_knowledge_sea.Common.{
  ℕ, ◌≡◌, refl, true, Option, none, some, codes, ◌⊎◌, inl, inr, arith, sym, ◌∙◌, ap, subst,
}
use enterprise_knowledge_sea.Status.{
  DocumentStatus, IngestionJobStatus, uploaded, processing, ready, deleting, document_status_eq,
  job_status_eq, document_allowed,
}
use enterprise_knowledge_sea.Errors.{ok, Result-cases}
use enterprise_knowledge_sea.Domain.Checks.{Datetime}
use enterprise_knowledge_sea.Domain.Document
use enterprise_knowledge_sea.Domain.Document.{Document}
use enterprise_knowledge_sea.Domain.Job
use enterprise_knowledge_sea.Domain.Job.{IngestionJob}
use enterprise_knowledge_sea.Persistence.Records.{document_to_record}
use enterprise_knowledge_sea.Persistence.Session.{Database, DatabaseLaws}
use enterprise_knowledge_sea.Persistence.Repositories.{
  get_document, get_job, save_document, save_job,
}
use enterprise_knowledge_sea.Application.Documents.{register, mark_dispatch_failed}
use enterprise_knowledge_sea.Application.Documents.Submission.{register_returned}
use enterprise_knowledge_sea.Application.Ingestion.{
  start_job, start_found, requeue_failed, begin_attempt,
}
use enterprise_knowledge_sea.Application.Ingestion.Pairs.{
  Pair, Paired, Stored, IsConsistent, waiting, working, indexed, broken, leaving_indexed,
  leaving_broken,
}
use enterprise_knowledge_sea.Application.Ingestion.Saving.{
  Next, written, written-Replaced, get_job-Stored, get_document-Stored, save_document_stored,
  save_job_after,
}
use enterprise_knowledge_sea.Application.Ingestion.Steps.{fail_both}
use enterprise_knowledge_sea.Application.Ingestion.Steps as Steps
use enterprise_knowledge_sea.Application.Ingestion.Transactions.{
  written-Kept, IsAbout, stored, gone, start_job_state, start_job_returned,
}
use enterprise_knowledge_sea.System.{Move, reject, fail, begin, retry, index}
use enterprise_knowledge_sea.System.Rows.{RowStep, same, entered, advanced, new-Stored}

-- Which statuses an attempt begins from.
start_found_from :
    {S : Type 0} (db : Database S) (clock : ℕ → Datetime) (d : Document) (j : IngestionJob)
    (s t : S) (e : ℕ) (a : DocumentStatus) (b : IngestionJobStatus)
    → Paired a b
    → d.status ≡ a
    → j.status ≡ b
    → start_found db clock j d s ≡ ok (some e, t)
    → (a ≡ DocumentStatus.queued) ⊎ (a ≡ DocumentStatus.failed)
unfolding start_found requeue_failed begin_attempt document_status_eq job_status_eq
start_found_from db clock d j s t e a b waiting f g h = inl refl
start_found_from db clock d j s t e a b working f g h = ground arith
start_found_from db clock d j s t e a b indexed f g h = ground arith
start_found_from db clock d j s t e a b broken f g h = inr refl
start_found_from db clock d j s t e a b leaving_indexed f g h = ground arith
start_found_from db clock d j s t e a b leaving_broken f g h = ground arith

-- Which statuses a document is marked as failed from, or as ready.
pub failed_from :
    (a : DocumentStatus)
    → document_allowed a DocumentStatus.failed ≡ true
    → Move (some a) (some DocumentStatus.failed)
unfolding document_allowed
failed_from uploaded h = ground arith
failed_from DocumentStatus.queued h = reject
failed_from processing h = fail
failed_from ready h = ground arith
failed_from DocumentStatus.failed h = ground arith
failed_from deleting h = ground arith

pub ready_from : (a : DocumentStatus) → document_allowed a ready ≡ true → Move (some a) (some ready)
unfolding document_allowed
ready_from processing h = index
ready_from uploaded h = ground arith
ready_from DocumentStatus.queued h = ground arith
ready_from ready h = ground arith
ready_from DocumentStatus.failed h = ground arith
ready_from deleting h = ground arith

module _ {S : Type 0} (db : Database S) (laws : DatabaseLaws db) (Fresh : ℕ → ℕ → Type 0) where
  pub unchanged : (s t : S) → t ≡ s → RowStep db Fresh s t
  unchanged s t e =
      same (record { jobs = λ i. ap (db.find_job i) e; documents = λ d. ap (db.find_document d) e })

  -- a pair that is written over another
  pub advance :
      (i : ℕ) (d0 d : Document) (j0 j : IngestionJob) (s t : S)
      → Stored db i d0 j0 s
      → Next d0 j0 d j
      → Move (some d0.status) (some d.status)
      → t ≡ written db laws d j s
      → RowStep db Fresh s t
  advance i d0 d j0 j s t st n m e =
      subst (RowStep db Fresh s) (sym e)
        (advanced i d0 d j0 j st n m (written-Replaced db laws d j s))

  pub register-RowStep :
      (d : Document) (j : IngestionJob) (s t : S)
      → Pair d j
      → d.status ≡ DocumentStatus.queued
      → db.find_document d.id s ≡ none
      → db.find_job j.id s ≡ none
      → Fresh d.id j.id
      → register db d j s ≡ ok (tt, t)
      → RowStep db Fresh s t × IsAbout db laws j.id d.id t
  register-RowStep d j s t p q a b f h =
      let (_, e) = register_returned db d j s t h in
      let rep = written-Replaced db laws d j s in
      (
        subst (RowStep db Fresh s) (sym e) (entered d j p q a b f rep),
        subst (IsAbout db laws j.id d.id) (sym e)
            (stored d j (new-Stored db d j s (written db laws d j s) p rep) refl),
      )

  dispatch_failed_state :
      (clock : ℕ → Datetime) (i : ℕ) (d d' : Document) (j j' : IngestionJob) (s t : S)
      → mark_dispatch_failed db clock d.id i s ≡ ok (tt, t)
      → get_document db d.id s ≡ ok (some d, s)
      → get_job db i s ≡ ok (some j, s)
      → Document.mark_failed (codes "queue_unavailable") none (clock 3) d ≡ ok d'
      → Job.fail (codes "queue_unavailable") none (clock 4) j ≡ ok j'
      → save_document db d' s ≡ ok (tt, db.write_document (document_to_record d') s)
      → save_job db j' (db.write_document (document_to_record d') s)
        ≡ ok (tt, written db laws d' j' s)
      → t ≡ written db laws d' j' s
  unfolding mark_dispatch_failed
  dispatch_failed_state clock i d d' j j' s t h a b f g e1 e2 = ground arith

  dispatch_failed-Stored :
      (clock : ℕ → Datetime) (i : ℕ) (d : Document) (j : IngestionJob) (s t : S)
      → Stored db i d j s
      → mark_dispatch_failed db clock d.id i s ≡ ok (tt, t)
      → RowStep db Fresh s t
  unfolding mark_dispatch_failed
  dispatch_failed-Stored clock i d j s t st h =
      let a = get_document-Stored db laws i d j s st in
      let b = get_job-Stored db laws i d j s st in
      let code = codes "queue_unavailable" in
      elim (Result-cases (Document.mark_failed (codes "queue_unavailable") none (clock 3) d)) [
        | inr (x, f) ↦ ground arith
        | inl (d', f) ↦
            elim (Result-cases (Job.fail (codes "queue_unavailable") none (clock 4) j)) [
              | inr (x, g) ↦ ground arith
              | inl (j', g) ↦
                  let (n, q, _, _) = fail_both (clock 3) (clock 4) d d' j j' st.pair code f g in
                  let m =
                    Steps.mark_failed_returned (clock 3) d d' st.pair.document-IsValid code f in
                  advance i d d' j j' s t st n
                    (subst (λ x. Move (some d.status) (some x)) (sym q)
                      (failed_from d.status m.0.0))
                    (dispatch_failed_state clock i d d' j j' s t h a b f g
                      (save_document_stored db laws d d' s st.document_row n.document_id
                        n.document_created)
                      (save_job_after db laws i d d' j j' s st n))
            ]
      ]

  dispatch_failed_gone :
      (clock : ℕ → Datetime) (i e : ℕ) (s t : S)
      → db.find_document e s ≡ none
      → mark_dispatch_failed db clock e i s ≡ ok (tt, t)
      → t ≡ s
  unfolding mark_dispatch_failed get_document get_job
  dispatch_failed_gone clock i e s t f h = ground arith

  pub dispatch_failed-RowStep :
      (clock : ℕ → Datetime) (i e : ℕ) (s t : S)
      → IsAbout db laws i e s
      → mark_dispatch_failed db clock e i s ≡ ok (tt, t)
      → RowStep db Fresh s t
  dispatch_failed-RowStep clock i e s t (stored d j st f) h =
      dispatch_failed-Stored clock i d j s t st
        (subst (λ x. mark_dispatch_failed db clock x i s ≡ ok (tt, t)) (sym f) h)
  dispatch_failed-RowStep clock i e s t (gone f g) h =
      unchanged s t (dispatch_failed_gone clock i e s t g h)

  started_from :
      (a b : DocumentStatus)
      → (a ≡ DocumentStatus.queued) ⊎ (a ≡ DocumentStatus.failed)
      → b ≡ processing
      → Move (some a) (some b)
  started_from a b (inl e) f = rw (e, f) begin
  started_from a b (inr e) f = rw (e, f) retry

  pub start-RowStep :
      (clock : ℕ → Datetime) (i : ℕ) (s t : S) (r : Option ℕ)
      → IsConsistent db s
      → start_job db clock i s ≡ ok (r, t)
      → RowStep db Fresh s t × ((e : ℕ) → r ≡ some e → IsAbout db laws i e t)
  start-RowStep clock i s t r c h = elim (start_job_returned db laws clock i s t r c h) [
    | inl (e, f) ↦ (unchanged s t f, λ k g. ground arith)
    | inr (d, j, st, e, begun) ↦
        let g = sym (start_job_state db laws clock i d j s st) ∙ h ∙ ap (λ x. ok (x, t)) e in
        let kept = written-Kept db laws i d begun.document j begun.job s c st begun.next in
        (
          advance i d begun.document j begun.job s t st begun.next
              (started_from d.status begun.document.status
                (start_found_from db clock d j s t d.id d.status j.status st.pair.paired refl refl
                  g)
                begun.document_status)
              begun.state,
          λ k q. subst (IsAbout db laws i k) (sym begun.state) (
              subst (λ x. IsAbout db laws i x (written db laws begun.document begun.job s))
                (ground arith) kept.about),
        )
  ]
