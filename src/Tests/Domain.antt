-- ===== src/Tests/Domain.antt =====
-- The lifecycles of a document and of a job on short histories.
use enterprise_knowledge_sea.Common.{
  ℕ, ◌≡◌, refl, none, some, codes, List, [], ◌∷◌, pos, ◌+ℤ◌, arith, strip, is_space, blank,
}
use enterprise_knowledge_sea.Status.{
  DocumentStatus, uploaded, processing, ready, deleting, document_allowed, document_status_eq,
  job_allowed, job_status_eq,
}
use enterprise_knowledge_sea.Errors.{ok}
use enterprise_knowledge_sea.Domain.Checks.{earlier, is_sha256}
use enterprise_knowledge_sea.Domain.Locator
use enterprise_knowledge_sea.Domain.Locator.{SourceLocator}
use enterprise_knowledge_sea.Domain.Document
use enterprise_knowledge_sea.Domain.Document.{Document, transition}
use enterprise_knowledge_sea.Domain.Document.Lifecycle.{
  IsPermitted, moved, transition_permitted, transition_returned, post_init_of_IsValid,
}
use enterprise_knowledge_sea.Domain.Document.Lifecycle as DocumentLifecycle
use enterprise_knowledge_sea.Domain.Document.History as DocumentHistory
use enterprise_knowledge_sea.Domain.Document.History.{run-IsValid, run_ready}
use enterprise_knowledge_sea.Domain.Job
use enterprise_knowledge_sea.Domain.Job.{IngestionJob}
use enterprise_knowledge_sea.Domain.Job.Lifecycle as JobLifecycle
use enterprise_knowledge_sea.Domain.Job.History as JobHistory
use enterprise_knowledge_sea.Domain.Job.History.{run_attempts}
use enterprise_knowledge_sea.Domain.Chunk
use enterprise_knowledge_sea.Domain.Chunk.{Chunk, stable_key-injective, stable_key}
use enterprise_knowledge_sea.Persistence.Records.{
  document_to_record, record_to_document, job_to_record, record_to_job, chunk_to_record,
  record_to_chunk,
}
use enterprise_knowledge_sea.Persistence.Records.RoundTrip.{
  record_to_document-document_to_record, record_to_job-job_to_record,
  record_to_chunk-chunk_to_record,
}
use enterprise_knowledge_sea.Tests.{
  platform, platform_laws, at, zeros, document, document-IsValid, waiting_job, waiting_job-IsValid,
  running_job, running_job-IsValid,
}

abbrev queueing : List DocumentHistory.Event
queueing =
    DocumentHistory.queue (some (at 2)) (at 0)
    ∷ DocumentHistory.start_processing (some (at 3)) (at 0)
    ∷ []

permitted : IsPermitted DocumentStatus.queued (at 2) none (document uploaded 1 none)
unfolding document_allowed document_status_eq
permitted = record {
  allowed = refl;
  aware = refl;
  later = omega arith;
  coded = λ e. ground arith;
  uncoded = λ e. refl;
}

queued_test :
    transition DocumentStatus.queued (some (at 2)) none (at 0) (document uploaded 1 none)
    ≡ ok (document DocumentStatus.queued 2 none)
unfolding DocumentHistory.run DocumentHistory.apply Document.queue Document.start_processing
    Document.mark_deleting transition Document.post_init is_sha256 blank strip is_space earlier
    document_status_eq document_allowed
queued_test = refl

transition_returned_example :
    IsPermitted DocumentStatus.queued (at 2) none (document uploaded 1 none)
    × (document DocumentStatus.queued 2 none
        ≡ moved DocumentStatus.queued (at 2) none (document uploaded 1 none))
    × DocumentLifecycle.IsValid (document DocumentStatus.queued 2 none)
unfolding document_status_eq
transition_returned_example =
    transition_returned DocumentStatus.queued (some (at 2)) none (at 0) (document uploaded 1 none)
      (document-IsValid uploaded 1 refl (omega arith)) (document DocumentStatus.queued 2 none)
      queued_test

queueing_test :
    DocumentHistory.run queueing (document uploaded 1 none) ≡ ok (document processing 3 none)
unfolding DocumentHistory.run DocumentHistory.apply Document.queue Document.start_processing
    Document.mark_deleting transition Document.post_init is_sha256 blank strip is_space earlier
    document_status_eq document_allowed
queueing_test = refl

run-IsValid_example :
    DocumentLifecycle.IsValid (document processing 3 none)
    × DocumentHistory.SameDocument (document uploaded 1 none) (document processing 3 none)
unfolding document_status_eq
run-IsValid_example =
    run-IsValid queueing (document uploaded 1 none) (document processing 3 none)
      (document-IsValid uploaded 1 refl (omega arith)) queueing_test

deleting_test :
    DocumentHistory.run (DocumentHistory.mark_deleting none (at 9) ∷ []) (document ready 4 none)
    ≡ ok (document deleting 9 none)
unfolding DocumentHistory.run DocumentHistory.apply Document.queue Document.start_processing
    Document.mark_deleting transition Document.post_init is_sha256 blank strip is_space earlier
    document_status_eq document_allowed
deleting_test = refl

starting_test : JobHistory.run (JobHistory.start none (at 3) ∷ []) waiting_job ≡ ok running_job
unfolding JobHistory.run JobHistory.apply Job.start Job.transition Job.post_init earlier job_allowed
    job_status_eq ◌+ℤ◌
starting_test = refl

run_attempts_example :
    JobLifecycle.IsValid running_job
    × JobLifecycle.SameJob waiting_job running_job
    × (running_job.attempt_count ≡ waiting_job.attempt_count +ℤ pos 1)
run_attempts_example =
    run_attempts (JobHistory.start none (at 3) ∷ []) waiting_job running_job waiting_job-IsValid
      starting_test

record_to_document-document_to_record_example :
    record_to_document (document_to_record (document ready 4 none)) ≡ ok (document ready 4 none)
unfolding document_status_eq
record_to_document-document_to_record_example =
    record_to_document-document_to_record (document ready 4 none)
      (document-IsValid ready 4 refl (omega arith))

record_to_job-job_to_record_example : record_to_job (job_to_record running_job) ≡ ok running_job
record_to_job-job_to_record_example = record_to_job-job_to_record running_job running_job-IsValid

abbrev pub chunk : Chunk
chunk = record {
  id = 7;
  document_id = 5;
  ordinal = pos 0;
  text = codes "one two";
  token_count = pos 2;
  content_hash = zeros;
  locator = record { section_path = []; page_number = none; char_start = pos 0; char_end = pos 7 };
}

pub chunk_checked : Chunk.post_init chunk ≡ ok chunk
unfolding Chunk.post_init is_sha256 blank strip is_space
chunk_checked = refl

pub locator_checked : Locator.post_init chunk.locator ≡ ok chunk.locator
unfolding Locator.post_init
locator_checked = refl

record_to_chunk-chunk_to_record_example : record_to_chunk (chunk_to_record chunk) ≡ ok chunk
record_to_chunk-chunk_to_record_example =
    record_to_chunk-chunk_to_record chunk (Chunk.IsValid-post_init chunk chunk chunk_checked).0
      (Locator.IsValid-post_init chunk.locator locator_checked).0

abbrev five : ℕ
five = 5

stable_key-injective_example : (five ≡ five) × (pos 2 ≡ pos 2) × (zeros ≡ zeros)
stable_key-injective_example =
    stable_key-injective platform platform_laws five five (pos 2) (pos 2) zeros zeros refl
