-- ===== src/Persistence/Records/RoundTrip.antt =====
-- What is stored is read back unchanged.
use enterprise_knowledge_sea.Common.{◌≡◌, refl, some}
use enterprise_knowledge_sea.Status.{
  DocumentStatus, IngestionJobStatus, DocumentMediaType, pdf, uploaded, running,
  document_status_value, job_status_value, media_type_value, document_status_of_value,
  job_status_of_value, media_type_of_value,
}
use enterprise_knowledge_sea.Errors.{ok}
use enterprise_knowledge_sea.Domain.Locator
use enterprise_knowledge_sea.Domain.Document
use enterprise_knowledge_sea.Domain.Document.{Document}
use enterprise_knowledge_sea.Domain.Document.Lifecycle
use enterprise_knowledge_sea.Domain.Job
use enterprise_knowledge_sea.Domain.Job.{IngestionJob}
use enterprise_knowledge_sea.Domain.Job.Lifecycle as JobLifecycle
use enterprise_knowledge_sea.Domain.Chunk
use enterprise_knowledge_sea.Domain.Chunk.{Chunk}
use enterprise_knowledge_sea.Persistence.Records.{
  document_to_record, record_to_document, job_to_record, record_to_job, chunk_to_record,
  record_to_chunk,
}

document_status_of_value-value :
    (s : DocumentStatus) → document_status_of_value (document_status_value s) ≡ some s
unfolding document_status_of_value
document_status_of_value-value uploaded = refl
document_status_of_value-value _ = refl

job_status_of_value-value :
    (s : IngestionJobStatus) → job_status_of_value (job_status_value s) ≡ some s
unfolding job_status_of_value
job_status_of_value-value running = refl
job_status_of_value-value _ = refl

media_type_of_value-value :
    (t : DocumentMediaType) → media_type_of_value (media_type_value t) ≡ some t
unfolding media_type_of_value
media_type_of_value-value pdf = refl
media_type_of_value-value _ = refl

-- What passes the checks of its class is read back from its row.
pub record_to_document_checked :
    (d : Document) → Document.post_init d ≡ ok d → record_to_document (document_to_record d) ≡ ok d
unfolding record_to_document document_to_record
record_to_document_checked d h =
    rw (media_type_of_value-value d.media_type) (rw (document_status_of_value-value d.status) h)

pub record_to_job_checked :
    (j : IngestionJob) → Job.post_init j ≡ ok j → record_to_job (job_to_record j) ≡ ok j
unfolding record_to_job job_to_record
record_to_job_checked j h = rw (job_status_of_value-value j.status) h

-- A valid document is read back from its row as it was stored.
pub record_to_document-document_to_record :
    (d : Document) → Lifecycle.IsValid d → record_to_document (document_to_record d) ≡ ok d
record_to_document-document_to_record d v =
    record_to_document_checked d (Lifecycle.post_init_of_IsValid d v)

-- A valid job is read back from its row as it was stored.
pub record_to_job-job_to_record :
    (j : IngestionJob) → JobLifecycle.IsValid j → record_to_job (job_to_record j) ≡ ok j
record_to_job-job_to_record j v = record_to_job_checked j (JobLifecycle.post_init_of_IsValid j v)

-- A valid chunk with a valid locator is read back from its row as it was stored.
pub record_to_chunk-chunk_to_record :
    (c : Chunk)
    → Chunk.IsValid c
    → Locator.IsValid c.locator
    → record_to_chunk (chunk_to_record c) ≡ ok c
unfolding record_to_chunk chunk_to_record
record_to_chunk-chunk_to_record c v w =
    rw (Locator.post_init_of_IsValid c.locator w) (Chunk.post_init_of_IsValid c v)
