-- ===== src/Persistence/Schema/Admitted.antt =====
-- The rows of valid values, within the widths of the columns, are admitted by the declared tables.
use enterprise_knowledge_sea.Common.{
  ◌≡◌, refl, Bool, true, false, Text, codes, text_eq, blank, [], ◌∷◌, length, ltb, leb, arith,
  strip, lstrip, rstrip,
}
use enterprise_knowledge_sea.Status.{
  document_status_value, job_status_value, media_type_value, document_status_eq, job_status_eq,
  DocumentStatus, IngestionJobStatus, DocumentMediaType,
}
use enterprise_knowledge_sea.Domain.Checks.{is_sha256, all_hex, is_hex}
use enterprise_knowledge_sea.Platform.{surrogate}
use enterprise_knowledge_sea.Domain.Locator
use enterprise_knowledge_sea.Domain.Document.{Document}
use enterprise_knowledge_sea.Domain.Document.Lifecycle
use enterprise_knowledge_sea.Domain.Job.{IngestionJob}
use enterprise_knowledge_sea.Domain.Job.Lifecycle as JobLifecycle
use enterprise_knowledge_sea.Domain.Chunk
use enterprise_knowledge_sea.Domain.Chunk.{Chunk}
use enterprise_knowledge_sea.Persistence.Records.{
  document_to_record, job_to_record, chunk_to_record,
}
use enterprise_knowledge_sea.Persistence.Schema.{
  fits, storable, column_admits, truth, check_admits, table_admits, find_table, admits, one_of,
  all_of,
}
use enterprise_knowledge_sea.Persistence.Schema.Models.{
  documents, chunks, ingestion_jobs, declared, document_status_values, job_status_values,
  media_type_values,
}
use enterprise_knowledge_sea.Persistence.Schema.Rows.{
  document_row, chunk_row, job_row, IsNarrowDocument, IsNarrowJob, IsNarrowChunk,
}

sha256_width : (t : Text) → is_sha256 t ≡ true → leb (length t) 64 ≡ true
unfolding is_sha256
sha256_width t h = ground arith

-- A list of hexadecimal digits can be stored.
all_hex-storable : (t : Text) → all_hex t ≡ true → storable t ≡ true
unfolding all_hex is_hex storable surrogate
all_hex-storable [] h = refl
all_hex-storable (c ∷ t) h = ground (arith, all_hex-storable t)

sha256_storable : (t : Text) → is_sha256 t ≡ true → storable t ≡ true
unfolding is_sha256
sha256_storable t h = ground (arith, all_hex-storable t)

-- The values of the enumerations can be stored.
document_status_storable : (s : DocumentStatus) → storable (document_status_value s) ≡ true
unfolding document_status_value storable surrogate
document_status_storable DocumentStatus.uploaded = refl
document_status_storable _ = refl

media_type_storable : (t : DocumentMediaType) → storable (media_type_value t) ≡ true
unfolding media_type_value storable surrogate
media_type_storable DocumentMediaType.pdf = refl
media_type_storable _ = refl

job_status_storable : (s : IngestionJobStatus) → storable (job_status_value s) ≡ true
unfolding job_status_value storable surrogate
job_status_storable IngestionJobStatus.queued = refl
job_status_storable _ = refl

module _ where
  document_status_width : (s : DocumentStatus) → leb (length (document_status_value s)) 32 ≡ true
  unfolding document_status_value
  document_status_width DocumentStatus.uploaded = refl
  document_status_width _ = refl

  document_status_listed :
      (s : DocumentStatus) → one_of (document_status_value s) document_status_values ≡ true
  unfolding document_status_value text_eq
  document_status_listed DocumentStatus.uploaded = refl
  document_status_listed _ = refl

  document_status_failed :
      (s : DocumentStatus)
      → text_eq (document_status_value s) (codes "failed")
        ≡ document_status_eq s DocumentStatus.failed
  unfolding document_status_value document_status_eq text_eq
  document_status_failed DocumentStatus.uploaded = refl
  document_status_failed _ = refl

  media_type_width : (t : DocumentMediaType) → leb (length (media_type_value t)) 64 ≡ true
  unfolding media_type_value
  media_type_width DocumentMediaType.pdf = refl
  media_type_width _ = refl

  media_type_listed : (t : DocumentMediaType) → one_of (media_type_value t) media_type_values ≡ true
  unfolding media_type_value text_eq
  media_type_listed DocumentMediaType.pdf = refl
  media_type_listed _ = refl

  job_status_width : (s : IngestionJobStatus) → leb (length (job_status_value s)) 32 ≡ true
  unfolding job_status_value
  job_status_width IngestionJobStatus.queued = refl
  job_status_width _ = refl

  job_status_listed :
      (s : IngestionJobStatus) → one_of (job_status_value s) job_status_values ≡ true
  unfolding job_status_value text_eq
  job_status_listed IngestionJobStatus.queued = refl
  job_status_listed _ = refl

  job_status_failed :
      (s : IngestionJobStatus)
      → text_eq (job_status_value s) (codes "failed") ≡ job_status_eq s IngestionJobStatus.failed
  unfolding job_status_value job_status_eq text_eq
  job_status_failed IngestionJobStatus.queued = refl
  job_status_failed _ = refl

text_present : (t : Text) → blank t ≡ false → ltb 0 (length t) ≡ true
unfolding blank strip lstrip rstrip
text_present [] h = ground arith
text_present (c ∷ t) h = ground arith

document_columns_admitted :
    (d : Document)
    → Lifecycle.IsValid d
    → IsNarrowDocument d
    → all_of (column_admits (document_row (document_to_record d))) documents.columns ≡ true
unfolding column_admits fits text_eq document_row document_to_record
document_columns_admitted d v narrow =
    let media = media_type_width d.media_type in
    let status = document_status_width d.status in
    let hash = sha256_width d.sha256 v.hash in
    let media_text = media_type_storable d.media_type in
    let status_text = document_status_storable d.status in
    let hash_text = sha256_storable d.sha256 v.hash in ground arith

document_checks_admitted :
    (d : Document)
    → Lifecycle.IsValid d
    → all_of (check_admits (document_row (document_to_record d))) documents.checks ≡ true
unfolding check_admits truth text_eq document_row document_to_record
document_checks_admitted d v =
    let media = media_type_listed d.media_type in
    let status = document_status_listed d.status in
    let failed = document_status_failed d.status in ground arith

chunk_columns_admitted :
    (indexable : Text → Bool) (c : Chunk)
    → Chunk.IsValid c
    → IsNarrowChunk indexable c
    → all_of (column_admits (chunk_row indexable (chunk_to_record c))) chunks.columns ≡ true
unfolding column_admits fits text_eq chunk_row chunk_to_record
chunk_columns_admitted indexable c v narrow =
    let hash = sha256_width c.content_hash v.hash in
    let hash_text = sha256_storable c.content_hash v.hash in ground arith

chunk_checks_admitted :
    (indexable : Text → Bool) (c : Chunk)
    → Chunk.IsValid c
    → Locator.IsValid c.locator
    → all_of (check_admits (chunk_row indexable (chunk_to_record c))) chunks.checks ≡ true
unfolding check_admits truth text_eq chunk_row chunk_to_record
chunk_checks_admitted indexable c v w = let present = text_present c.text v.text in ground arith

job_columns_admitted :
    (j : IngestionJob)
    → IsNarrowJob j
    → all_of (column_admits (job_row (job_to_record j))) ingestion_jobs.columns ≡ true
unfolding column_admits fits text_eq job_row job_to_record
job_columns_admitted j narrow =
    let status = job_status_width j.status in
    let status_text = job_status_storable j.status in ground arith

job_checks_admitted :
    (j : IngestionJob)
    → JobLifecycle.IsValid j
    → all_of (check_admits (job_row (job_to_record j))) ingestion_jobs.checks ≡ true
unfolding check_admits truth text_eq job_row job_to_record job_status_eq
job_checks_admitted j v =
    let status = job_status_listed j.status in
    let failed = job_status_failed j.status in ground arith

-- The declared tables admit the rows of valid values that are within the widths of the columns,
-- whose texts hold neither U+0000 nor a surrogate, and, of a chunk, whose text can be indexed: no
-- CHECK constraint and no type refuses them.
pub valid_rows_admitted :
    (indexable : Text → Bool) (d : Document) (c : Chunk) (j : IngestionJob)
    → Lifecycle.IsValid d
    → IsNarrowDocument d
    → Chunk.IsValid c
    → Locator.IsValid c.locator
    → IsNarrowChunk indexable c
    → JobLifecycle.IsValid j
    → IsNarrowJob j
    → (admits declared (codes "documents") (document_row (document_to_record d)) ≡ true)
      × (admits declared (codes "chunks") (chunk_row indexable (chunk_to_record c)) ≡ true)
      × (admits declared (codes "ingestion_jobs") (job_row (job_to_record j)) ≡ true)
unfolding admits find_table table_admits text_eq
valid_rows_admitted indexable d c j vd nd vc vl nc vj nj = (
  ground (arith, document_columns_admitted d vd nd, document_checks_admitted d vd),
  ground (arith, chunk_columns_admitted indexable c vc nc, chunk_checks_admitted indexable c vc vl),
  ground (arith, job_columns_admitted j nj, job_checks_admitted j vj),
)
