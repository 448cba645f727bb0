-- ===== src/Application/Documents/ReadBack.antt =====
-- DocumentQueries after DocumentSubmissionService and after DocumentDeletionService, of
-- knowledge_search/application/documents.py. A query reads only, so its commit has nothing to do.
use enterprise_knowledge_sea.Common.{
  ℕ, ◌≡◌, inl, inr, Option, none, some, Text, arith, ◌∙◌, sym, ap, subst, List, Option-cases,
  Bool-cases,
}
use enterprise_knowledge_sea.Status.{
  DocumentMediaType, DocumentStatus, deleting, document_status_eq,
}
use enterprise_knowledge_sea.Errors.{ok, err, document_not_found, Result-cases}
use enterprise_knowledge_sea.Domain.Checks.{Datetime}
use enterprise_knowledge_sea.Domain.Document
use enterprise_knowledge_sea.Domain.Document.{Document}
use enterprise_knowledge_sea.Domain.Document.Lifecycle
use enterprise_knowledge_sea.Domain.Job
use enterprise_knowledge_sea.Domain.Job.{IngestionJob}
use enterprise_knowledge_sea.Domain.Job.Lifecycle as JobLifecycle
use enterprise_knowledge_sea.Ingestion.Models.{StoredDocument}
use enterprise_knowledge_sea.Persistence.Records.{
  DocumentRecord, document_to_record, record_to_document, job_to_record, record_to_job,
}
use enterprise_knowledge_sea.Persistence.Records.RoundTrip.{
  record_to_document_checked, record_to_job_checked,
}
use enterprise_knowledge_sea.Persistence.Session.{
  Database, DatabaseLaws, transaction, transaction_committed,
}
use enterprise_knowledge_sea.Persistence.Repositories.{get_document, get_job}
use enterprise_knowledge_sea.Application.Documents.{
  SubmissionPorts, DocumentSubmission, query_document, query_job, begin_deletion,
}
use enterprise_knowledge_sea.Application.Documents.Submission.{
  submit, new_submission, submit_returned, submit_stages, registered_returned,
}
use enterprise_knowledge_sea.Application.Documents.Deletion.{DeletionPorts, delete, delete_gone}

document_stable : (d e : Document) → Document.post_init d ≡ ok e → Document.post_init e ≡ ok e
document_stable d e h =
    subst (λ x. Document.post_init x ≡ ok e) (sym (Lifecycle.IsValid-post_init d e h).1) h

job_stable : (j k : IngestionJob) → Job.post_init j ≡ ok k → Job.post_init k ≡ ok k
job_stable j k h =
    subst (λ x. Job.post_init x ≡ ok k) (sym (JobLifecycle.post_init-returned j k h)) h

queue_stable :
    (clock : Datetime) (d e : Document)
    → Document.queue none clock d ≡ ok e
    → Document.post_init e ≡ ok e
unfolding Document.queue Document.transition
queue_stable clock d e h =
    ground (arith, document_stable (Lifecycle.moved DocumentStatus.queued clock none d) e)

create_stable :
    (document_id fresh : ℕ) (clock : Datetime) (j : IngestionJob)
    → Job.create document_id none none fresh clock ≡ ok j
    → Job.post_init j ≡ ok j
unfolding Job.create
create_stable document_id fresh clock j h = job_stable _ j h

new_submission_checked :
    (clock : ℕ → Datetime) (fresh : ℕ → ℕ) (filename : Text) (media_type : DocumentMediaType)
    (stored : StoredDocument) (sub : DocumentSubmission)
    → new_submission clock fresh filename media_type stored ≡ ok sub
    → (Document.post_init sub.document ≡ ok sub.document) × (Job.post_init sub.job ≡ ok sub.job)
unfolding new_submission
new_submission_checked clock fresh filename media_type stored sub h =
    let upload : Document.Upload = record {
      original_filename = filename;
      storage_key = stored.storage_key;
      media_type = media_type;
      sha256 = stored.sha256;
      size_bytes = stored.size_bytes;
    } in
    elim (Result-cases (Document.create upload (some (fresh 0)) none (fresh 1) (clock 0))) [
      | inr (x, e) ↦ absurd (ground arith)
      | inl (created, e) ↦ elim (Result-cases (Document.queue none (clock 1) created)) [
        | inr (x, f) ↦ absurd (ground arith)
        | inl (document, f) ↦
            elim (Result-cases (Job.create document.id none none (fresh 2) (clock 2))) [
              | inr (x, g) ↦ absurd (ground arith)
              | inl (job, g) ↦
                  let same : record { document = document; job = job } ≡ sub = ground arith in
                  subst
                    (λ u.
                      (Document.post_init u.document ≡ ok u.document)
                      × (Job.post_init u.job ≡ ok u.job))
                    same
                    (
                      queue_stable (clock 1) created document f,
                      create_stable document.id (fresh 2) (clock 2) job g,
                    )
            ]
      ]
    ]

module _ {S : Type 0} (db : Database S) where
  query_document_found :
      (id : ℕ) (d : Document) (s : S)
      → db.commit s s ≡ none
      → record_to_document (document_to_record d) ≡ ok d
      → db.find_document id s ≡ some (document_to_record d)
      → query_document db id s ≡ (ok d, s)
  unfolding query_document transaction get_document
  query_document_found id d s quiet read found = ground arith

  query_job_found :
      (id : ℕ) (j : IngestionJob) (s : S)
      → db.commit s s ≡ none
      → record_to_job (job_to_record j) ≡ ok j
      → db.find_job id s ≡ some (job_to_record j)
      → query_job db id s ≡ (ok j, s)
  unfolding query_job transaction get_job
  query_job_found id j s quiet read found = ground arith

  query_document_missing :
      (id : ℕ) (s : S)
      → db.commit s s ≡ none
      → db.find_document id s ≡ none
      → query_document db id s ≡ (err (document_not_found id), s)
  unfolding query_document transaction get_document
  query_document_missing id s quiet missing = ground arith

module _ {S Blob Files Queue : Type 0} (db : Database S) (laws : DatabaseLaws db)
    (ports : SubmissionPorts Blob Files Queue) (others : S → S) where
  submission_checked :
      (clock : ℕ → Datetime) (fresh : ℕ → ℕ) (filename : Text) (content_type : Option Text)
      (source : Blob) (s : S) (files : Files) (queue : Queue) (sub : DocumentSubmission)
      → (submit db ports others clock fresh filename content_type source s files queue).0 ≡ ok sub
      → (Document.post_init sub.document ≡ ok sub.document) × (Job.post_init sub.job ≡ ok sub.job)
  submission_checked clock fresh filename content_type source s files queue sub h =
      let (safe, media_type, stored, files1, sub0, f, g, k) =
        submit_stages db laws ports others clock fresh filename content_type source s files queue
          sub h in
      let (r, e) =
        registered_returned db laws ports others clock stored sub0 sub s files1 queue g in
      new_submission_checked clock fresh safe media_type stored sub (f ∙ ap ok (sym e))

  -- What a submission returns is what the queries find next: the document under its id and the job
  -- under its id, as they were returned, where the commit of a session that wrote nothing goes
  -- through.
  pub submit-query :
      (clock : ℕ → Datetime) (fresh : ℕ → ℕ) (filename : Text) (content_type : Option Text)
      (source : Blob) (s t : S) (files files' : Files) (queue queue' : Queue)
      (sub : DocumentSubmission)
      → submit db ports others clock fresh filename content_type source s files queue
        ≡ (ok sub, t, files', queue')
      → db.commit t t ≡ none
      → (query_document db (fresh 0) t ≡ (ok sub.document, t))
        × (query_job db sub.job.id t ≡ (ok sub.job, t))
  submit-query clock fresh filename content_type source s t files files' queue queue' sub h quiet =
      let (unknown, document_row, job_row, queued, waiting, owner) =
        submit_returned db laws ports others clock fresh filename content_type source s t files
          files' queue queue' sub h in
      let (document, job) =
        submission_checked clock fresh filename content_type source s files queue sub
          (ap (λ r. r.0) h) in
      (
        query_document_found db (fresh 0) sub.document t quiet
            (record_to_document_checked sub.document document) document_row,
        query_job_found db sub.job.id sub.job t quiet (record_to_job_checked sub.job job) job_row,
      )

record_to_document_id :
    (r : DocumentRecord) (d : Document) → record_to_document r ≡ ok d → d.id ≡ r.id
unfolding record_to_document Document.post_init
record_to_document_id r d h = ground arith

mark_deleting_id :
    (clock : Datetime) (d e : Document) → Document.mark_deleting none clock d ≡ ok e → e.id ≡ d.id
unfolding Document.mark_deleting Document.transition Document.post_init
mark_deleting_id clock d e h = ground arith

module _ {S Files Queue Vectors : Type 0} (db : Database S) (laws : DatabaseLaws db)
    (ports : DeletionPorts Files Queue Vectors) (others : S → S) where
  begin_deletion_id :
      (clock : Datetime) (document_id : ℕ) (s t : S) (d : Document) (ids : List ℕ)
      → ((r : DocumentRecord) → db.find_document document_id s ≡ some r → r.id ≡ document_id)
      → begin_deletion db clock document_id s ≡ ok ((d, ids), t)
      → d.id ≡ document_id
  unfolding begin_deletion get_document
  begin_deletion_id clock document_id s t d ids keyed h =
      elim (Option-cases (db.find_document document_id s)) [
        | inl e ↦ absurd (ground arith)
        | inr (r, e) ↦ elim (Result-cases (record_to_document r)) [
          | inr (x, f) ↦ absurd (ground arith)
          | inl (found, f) ↦
              let same = record_to_document_id r found f ∙ keyed r e in
              elim (Bool-cases (document_status_eq found.status deleting)) [
                | inl g ↦ ground arith
                | inr g ↦ elim (Result-cases (Document.mark_deleting none clock found)) [
                  | inr (x, k) ↦ absurd (ground arith)
                  | inl (marked, k) ↦ ground (arith, mark_deleting_id clock found marked k)
                ]
              ]
        ]
      ]

  -- After a deletion that returns, the query for the document raises that there is none, where the
  -- database finds rows under their own ids and the commit of a session that wrote nothing goes
  -- through.
  pub delete-query :
      (clock : Datetime) (document_id : ℕ) (s : S) (files : Files) (queue : Queue)
      (vectors : Vectors)
      → ((r : DocumentRecord) → db.find_document document_id s ≡ some r → r.id ≡ document_id)
      → (delete db ports others clock document_id s files queue vectors).0 ≡ ok tt
      → let t = (delete db ports others clock document_id s files queue vectors).1 in
        db.commit t t ≡ none
        → query_document db document_id t ≡ (err (document_not_found document_id), t)
  delete-query clock document_id s files queue vectors keyed h quiet =
      let t = (delete db ports others clock document_id s files queue vectors).1 in
      let (d, ids, begun, gone) =
        delete_gone db laws ports others clock document_id s files queue vectors h in
      let first = transaction db (begin_deletion db clock document_id) s in
      let body =
        transaction_committed db (begin_deletion db clock document_id) s first.1 (d, ids)
          (λ i. (begun i, first.1)) in
      let same = begin_deletion_id clock document_id s first.1 d ids keyed body in
      query_document_missing db document_id t quiet
        (subst (λ k. db.find_document k t ≡ none) same gone)
