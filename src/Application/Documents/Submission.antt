-- ===== src/Application/Documents/Submission.antt =====
-- class DocumentSubmissionService of knowledge_search/application/documents.py.
use enterprise_knowledge_sea.Common.{
  ℕ, ◌≡◌, ◌≢◌, refl, inl, inr, Option, none, some, Text, arith, ◌∙◌, sym, ap, subst, same_key,
}
use enterprise_knowledge_sea.Status.{DocumentMediaType, DocumentStatus, IngestionJobStatus}
use enterprise_knowledge_sea.Errors.{
  Error, Result, ok, err, integrity_error, duplicate_document, queue_dispatch, Result-cases,
}
use enterprise_knowledge_sea.Errors as Errors
use enterprise_knowledge_sea.Domain.Checks.{Datetime}
use enterprise_knowledge_sea.Domain.Document
use enterprise_knowledge_sea.Domain.Document.{Document}
use enterprise_knowledge_sea.Domain.Job
use enterprise_knowledge_sea.Domain.Job.{IngestionJob}
use enterprise_knowledge_sea.Ingestion.Models.{StoredDocument}
use enterprise_knowledge_sea.Persistence.Records.{document_to_record, job_to_record}
use enterprise_knowledge_sea.Persistence.Session.{
  Database, DatabaseLaws, transaction, transaction_committed,
}
use enterprise_knowledge_sea.Persistence.Repositories.{get_by_hash, add_document, add_job}
use enterprise_knowledge_sea.Application.Documents.{
  SubmissionPorts, DocumentSubmission, validate_filename, validate_media_type, register,
  mark_dispatch_failed,
}

-- the document and the job of a stored upload, both queued
unfoldable pub new_submission :
    (ℕ → Datetime) → (ℕ → ℕ) → Text → DocumentMediaType → StoredDocument → Result DocumentSubmission
new_submission clock fresh filename media_type stored =
    Errors.◌>>=◌
      (Document.create
        (record {
          original_filename = filename;
          storage_key = stored.storage_key;
          media_type = media_type;
          sha256 = stored.sha256;
          size_bytes = stored.size_bytes;
        })
        (some (fresh 0)) none (fresh 1) (clock 0))
      (λ created. Errors.◌>>=◌ (Document.queue none (clock 1) created) (λ document.
        Errors.◌>>=◌ (Job.create document.id none none (fresh 2) (clock 2))
          (λ job. ok (record { document = document; job = job }))))

module _ {S Blob Files Queue : Type 0} (db : Database S) (ports : SubmissionPorts Blob Files Queue)
    (others : S → S) where
  -- the handlers of the first `try`: the file is deleted, and a violated constraint is looked up
  -- as a duplicate
  unfoldable pub abandon :
      StoredDocument → Document → Error → S → Files → Result DocumentSubmission × S × Files
  abandon stored document integrity_error s files =
      let (deleted, files') = ports.delete_file stored.storage_key files in
      let (existing, t) = transaction db (get_by_hash db document.sha256) (others s) in
      elim deleted [
        | err e ↦ (err e, s, files')
        | ok _ ↦ elim existing [
          | err e ↦ (err e, t, files')
          | ok none ↦ (err integrity_error, t, files')
          | ok (some other) ↦ (err (duplicate_document other.id), t, files')
        ]
      ]
  abandon stored document e s files =
      let (deleted, files') = ports.delete_file stored.storage_key files in
      elim deleted [ err x ↦ (err x, s, files') | ok _ ↦ (err e, s, files') ]

  -- the second `try`: the job is enqueued, or the pair is marked as failed
  unfoldable pub dispatch :
      (ℕ → Datetime) → DocumentSubmission → S → Queue → Result DocumentSubmission × S × Queue
  dispatch clock submission s queue =
      let (enqueued, queue') = ports.enqueue submission.job.id queue in
      elim enqueued [
        | ok _ ↦ (ok submission, s, queue')
        | err (queue_dispatch _ _) ↦
            let (marked, t) =
              transaction db
                (mark_dispatch_failed db clock submission.document.id submission.job.id)
                (others s) in
            elim marked [
              | err e ↦ (err e, t, queue')
              | ok _ ↦ (
                err (queue_dispatch (some submission.document.id) (some submission.job.id)),
                t,
                queue',
              )
            ]
        | err e ↦ (err e, s, queue')
      ]

  unfoldable pub register_and_dispatch :
      (ℕ → Datetime)
      → StoredDocument
      → DocumentSubmission
      → S
      → Files
      → Queue
      → Result DocumentSubmission × S × Files × Queue
  register_and_dispatch clock stored submission s files queue =
      let (registered, t) = transaction db (register db submission.document submission.job) s in
      elim registered [
        | err e ↦
            let (failed, u, files') = abandon stored submission.document e t files in
            (failed, u, files', queue)
        | ok _ ↦
            let (sent, u, queue') = dispatch clock submission t queue in (sent, u, files, queue')
      ]

  -- `submit`
  unfoldable pub submit :
      (ℕ → Datetime)
      → (ℕ → ℕ)
      → Text
      → Option Text
      → Blob
      → S
      → Files
      → Queue
      → Result DocumentSubmission × S × Files × Queue
  submit clock fresh filename content_type source s files queue =
      let checked : Result (Text × DocumentMediaType) =
        Errors.◌>>=◌ (validate_filename filename) (λ safe.
          Errors.◌>>=◌ (validate_media_type ports.lower safe content_type)
            (λ media_type. ok (safe, media_type))) in
      elim checked [
        | err e ↦ (err e, s, files, queue)
        | ok (safe, media_type) ↦
            let (saved, files') =
              ports.save (fresh 0) media_type source ports.max_upload_bytes files in
            elim saved [
              | err e ↦ (err e, s, files', queue)
              | ok stored ↦ elim (new_submission clock fresh safe media_type stored) [
                | err e ↦ (err e, s, files', queue)
                | ok submission ↦ register_and_dispatch clock stored submission s files' queue
              ]
            ]
      ]

new_submission_returned :
    (clock : ℕ → Datetime) (fresh : ℕ → ℕ) (filename : Text) (media_type : DocumentMediaType)
    (stored : StoredDocument) (sub : DocumentSubmission)
    → new_submission clock fresh filename media_type stored ≡ ok sub
    → (sub.document.id ≡ fresh 0)
      × (sub.document.status ≡ DocumentStatus.queued)
      × (sub.document.sha256 ≡ stored.sha256)
      × (sub.job.document_id ≡ fresh 0)
      × (sub.job.status ≡ IngestionJobStatus.queued)
unfolding new_submission Document.create Document.queue Document.transition Document.post_init
    Job.create Job.post_init
new_submission_returned clock fresh filename media_type stored sub h = ground arith

module _ {S : Type 0} (db : Database S) where
  pub register_returned :
      (d : Document) (j : IngestionJob) (s t : S)
      → register db d j s ≡ ok (tt, t)
      → (db.document_by_hash d.sha256 s ≡ none)
        × (t ≡ db.write_job (job_to_record j) (db.write_document (document_to_record d) s))
  unfolding register get_by_hash add_document add_job
  register_returned d j s t h = ground arith

module _ {S Blob Files Queue : Type 0} (db : Database S) (laws : DatabaseLaws db)
    (ports : SubmissionPorts Blob Files Queue) (others : S → S) where
  dispatch_returned :
      (clock : ℕ → Datetime) (sub sub' : DocumentSubmission) (s : S) (queue : Queue)
      → (dispatch db ports others clock sub s queue).0 ≡ ok sub'
      → (sub' ≡ sub) × ((dispatch db ports others clock sub s queue).1 ≡ s)
  unfolding dispatch
  dispatch_returned clock sub sub' s queue h = ground arith

  abandon_fails :
      (stored : StoredDocument) (d : Document) (e : Error) (s : S) (files : Files)
      (sub : DocumentSubmission)
      → (abandon db ports others stored d e s files).0 ≢ ok sub
  unfolding abandon
  abandon_fails stored d e s files sub = ground arith

  pub registered_returned :
      (clock : ℕ → Datetime) (stored : StoredDocument) (sub sub' : DocumentSubmission) (s : S)
      (files : Files) (queue : Queue)
      → (register_and_dispatch db ports others clock stored sub s files queue).0 ≡ ok sub'
      → (transaction db (register db sub.document sub.job) s
          ≡ (ok tt, (register_and_dispatch db ports others clock stored sub s files queue).1))
        × (sub' ≡ sub)
  unfolding register_and_dispatch
  registered_returned clock stored sub sub' s files queue h =
      let t = (transaction db (register db sub.document sub.job) s).1 in
      elim (Result-cases (transaction db (register db sub.document sub.job) s).0) [
        | inr (e, f) ↦ ground (arith, abandon_fails stored sub.document e t files sub')
        | inl (done, f) ↦ ground (arith, dispatch_returned clock sub sub' t queue)
      ]

  -- the calls that a submission that is returned went through
  pub submit_stages :
      (clock : ℕ → Datetime) (fresh : ℕ → ℕ) (filename : Text) (content_type : Option Text)
      (source : Blob) (s : S) (files : Files) (queue : Queue) (sub : DocumentSubmission)
      → (submit db ports others clock fresh filename content_type source s files queue).0 ≡ ok sub
      → (safe : Text) × (media_type : DocumentMediaType) × (stored : StoredDocument)
        × (files1 : Files) × (sub0 : DocumentSubmission) × (new_submission clock fresh safe
              media_type stored
            ≡ ok sub0)
        × ((register_and_dispatch db ports others clock stored sub0 s files1 queue).0 ≡ ok sub)
        × ((submit db ports others clock fresh filename content_type source s files queue).1
            ≡ (register_and_dispatch db ports others clock stored sub0 s files1 queue).1)
  unfolding submit
  submit_stages clock fresh filename content_type source s files queue sub h =
      elim (Result-cases (validate_filename filename)) [
        | inr (x, e) ↦ ground arith
        | inl (safe, e1) ↦ elim (Result-cases (validate_media_type ports.lower safe content_type)) [
          | inr (x, e) ↦ ground arith
          | inl (media_type, e2) ↦
              let files1 =
                (ports.save (fresh 0) media_type source ports.max_upload_bytes files).1 in
              elim (Result-cases
                (ports.save (fresh 0) media_type source ports.max_upload_bytes files).0) [
                  | inr (x, e) ↦ ground arith
                  | inl (stored, e3) ↦
                      elim (Result-cases (new_submission clock fresh safe media_type stored)) [
                        | inr (x, e) ↦ ground arith
                        | inl (sub0, e4) ↦
                            (safe, media_type, stored, files1, sub0, e4, ground arith, ground arith)
                      ]
                ]
        ]
      ]

  submitted :
      (clock : ℕ → Datetime) (fresh : ℕ → ℕ) (safe : Text) (media_type : DocumentMediaType)
      (stored : StoredDocument) (sub : DocumentSubmission) (s t : S)
      → new_submission clock fresh safe media_type stored ≡ ok sub
      → transaction db (register db sub.document sub.job) s ≡ (ok tt, t)
      → (db.document_by_hash sub.document.sha256 s ≡ none)
        × (db.find_document (fresh 0) t ≡ some (document_to_record sub.document))
        × (db.find_job sub.job.id t ≡ some (job_to_record sub.job))
        × (sub.document.status ≡ DocumentStatus.queued)
        × (sub.job.status ≡ IngestionJobStatus.queued)
        × (sub.job.document_id ≡ fresh 0)
  unfolding document_to_record job_to_record
  submitted clock fresh safe media_type stored sub s t f r =
      let (id, a, b, c, d) = new_submission_returned clock fresh safe media_type stored sub f in
      let (none_there, e) =
        register_returned db sub.document sub.job s t
          (transaction_committed db (register db sub.document sub.job) s t tt r) in
      let doc = document_to_record sub.document in
      (
        none_there,
        ap (db.find_document (fresh 0)) e
            ∙ laws.find_document-write_job (job_to_record sub.job) (fresh 0)
                (db.write_document doc s)
            ∙ laws.find_document-write doc (fresh 0) s
            ∙ same_key sub.document.id (fresh 0) (some doc) _ id,
        ap (db.find_job sub.job.id) e
            ∙ laws.find_job-write (job_to_record sub.job) sub.job.id (db.write_document doc s)
            ∙ same_key sub.job.id sub.job.id (some (job_to_record sub.job)) _ refl,
        a,
        d,
        c,
      )

  -- Over a database that meets the laws, a submission that is returned has rows of its document and
  -- of its job, both queued and the job about the document, and no document had the hash before.
  pub submit_returned :
      (clock : ℕ → Datetime) (fresh : ℕ → ℕ) (filename : Text) (content_type : Option Text)
      (source : Blob) (s t : S) (files files' : Files) (queue queue' : Queue)
      (sub : DocumentSubmission)
      → submit db ports others clock fresh filename content_type source s files queue
        ≡ (ok sub, t, files', queue')
      → (db.document_by_hash sub.document.sha256 s ≡ none)
        × (db.find_document (fresh 0) t ≡ some (document_to_record sub.document))
        × (db.find_job sub.job.id t ≡ some (job_to_record sub.job))
        × (sub.document.status ≡ DocumentStatus.queued)
        × (sub.job.status ≡ IngestionJobStatus.queued)
        × (sub.job.document_id ≡ fresh 0)
  unfolding submit
  submit_returned clock fresh filename content_type source s t files files' queue queue' sub h =
      let (safe, media_type, stored, files1, sub0, f, g, k) =
        submit_stages clock fresh filename content_type source s files queue sub
          (ap (λ r. r.0) h) in
      let (r, e) = registered_returned clock stored sub0 sub s files1 queue g in
      submitted clock fresh safe media_type stored sub s t (f ∙ ap ok (sym e)) (
        subst (λ x. transaction db (register db x.document x.job) s ≡ (ok tt, t)) (sym e)
          (r ∙ ap (λ u. (ok tt, u)) (sym k ∙ ap (λ x. x.1) h)))
