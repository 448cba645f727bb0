-- ===== src/System/Registration.antt =====
-- What `submit` of knowledge_search/application/documents.py registers.
use enterprise_knowledge_sea.Common.{ℕ, ◌≡◌, Option, none, some, Text, arith, sym, ap, subst}
use enterprise_knowledge_sea.Status.{DocumentMediaType, DocumentStatus, IngestionJobStatus}
use enterprise_knowledge_sea.Errors.{ok, >>=-eq-ok}
use enterprise_knowledge_sea.Domain.Checks.{Datetime, validate_timestamp}
use enterprise_knowledge_sea.Domain.Document
use enterprise_knowledge_sea.Domain.Document.{Document}
use enterprise_knowledge_sea.Domain.Document.Lifecycle as DocumentLifecycle
use enterprise_knowledge_sea.Domain.Job
use enterprise_knowledge_sea.Domain.Job.{IngestionJob}
use enterprise_knowledge_sea.Domain.Job.Lifecycle as JobLifecycle
use enterprise_knowledge_sea.Ingestion.Models.{StoredDocument}
use enterprise_knowledge_sea.Application.Documents.{DocumentSubmission}
use enterprise_knowledge_sea.Application.Documents.Submission.{new_submission}
use enterprise_knowledge_sea.Application.Ingestion.Pairs.{Pair, waiting}

new_document :
    (u : Document.Upload) (id : Option ℕ) (fresh : ℕ) (c c' : Datetime) (d d' : Document)
    → Document.create u id none fresh c ≡ ok d
    → Document.queue none c' d ≡ ok d'
    → DocumentLifecycle.IsValid d' × (d'.status ≡ DocumentStatus.queued)
unfolding Document.create Document.queue
new_document u id fresh c c' d d' h h' =
    let (v, e) = DocumentLifecycle.IsValid-post_init _ d h in
    let (_, f, w) =
      DocumentLifecycle.transition_returned DocumentStatus.queued none none c' d
        (subst DocumentLifecycle.IsValid (sym e) v) d' h' in
    (w, ap (λ k. k.status) f)

new_job :
    (d fresh : ℕ) (c : Datetime) (j : IngestionJob)
    → Job.create d none none fresh c ≡ ok j
    → JobLifecycle.IsValid j × (j.status ≡ IngestionJobStatus.queued) × (j.document_id ≡ d)
unfolding Job.create Job.post_init validate_timestamp
new_job d fresh c j h = (
  record {
    attempts = ground arith;
    created_aware = ground arith;
    updated_aware = ground arith;
    ordered = ground arith;
    started = ground arith;
    finished = ground arith;
    timeline = ground arith;
    shape = ground arith;
  },
  ground arith,
  ground arith,
)

-- A new submission is a queued document with a queued job of its own.
pub new_submission-Pair :
    (clock : ℕ → Datetime) (fresh : ℕ → ℕ) (filename : Text) (media_type : DocumentMediaType)
    (stored : StoredDocument) (sub : DocumentSubmission)
    → new_submission clock fresh filename media_type stored ≡ ok sub
    → Pair sub.document sub.job × (sub.document.status ≡ DocumentStatus.queued)
unfolding new_submission
new_submission-Pair clock fresh filename media_type stored sub h =
    let (d, e, h1) = >>=-eq-ok (Document.create _ (some (fresh 0)) none (fresh 1) (clock 0)) _ h in
    let (d', e', h2) = >>=-eq-ok (Document.queue none (clock 1) d) _ h1 in
    let (j, e'', h3) = >>=-eq-ok (Job.create d'.id none none (fresh 2) (clock 2)) _ h2 in
    let (v, q) = new_document _ (some (fresh 0)) (fresh 1) (clock 0) (clock 1) d d' e e' in
    let (w, r, o) = new_job d'.id (fresh 2) (clock 2) j e'' in
    let made : record { document = d'; job = j } ≡ sub = ground arith in
    subst (λ x. Pair x.document x.job × (x.document.status ≡ DocumentStatus.queued)) made
      (record { document-IsValid = v; job_valid = w; owner = o; paired = rw (q, r) waiting }, q)
