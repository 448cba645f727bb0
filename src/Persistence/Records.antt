-- ===== src/Persistence/Records.antt =====
-- The rows of knowledge_search/persistence/models.py, and the conversions between rows and domain
-- values of persistence/repositories.py. A row stores an enumeration by its value.
pub mod RoundTrip
use enterprise_knowledge_sea.Common.{
  ℕ, Bool, true, false, ◌&&◌, ◌||◌, not, Option, none, some, Text, codes, text_eq, List, ℤ, pos,
  ltb_ℤ, is_empty,
}
use enterprise_knowledge_sea.Status.{
  document_status_value, job_status_value, media_type_value, document_status_of_value,
  job_status_of_value, media_type_of_value,
}
use enterprise_knowledge_sea.Errors.{Result, ok, err, ◌>>=◌, value_error}
use enterprise_knowledge_sea.Domain.Checks.{Datetime, is_sha256, is_some}
use enterprise_knowledge_sea.Domain.Locator
use enterprise_knowledge_sea.Domain.Document
use enterprise_knowledge_sea.Domain.Document.{Document}
use enterprise_knowledge_sea.Domain.Job
use enterprise_knowledge_sea.Domain.Job.{IngestionJob}
use enterprise_knowledge_sea.Domain.Chunk
use enterprise_knowledge_sea.Domain.Chunk.{Chunk}

pub record DocumentRecord : Type 0 where
  pub id : ℕ
  pub original_filename : Text
  pub storage_key : Text
  pub media_type : Text
  pub sha256 : Text
  pub size_bytes : ℤ
  pub status : Text
  pub failure_code : Option Text
  pub created_at : Datetime
  pub updated_at : Datetime

pub record ChunkRecord : Type 0 where
  pub id : ℕ
  pub document_id : ℕ
  pub ordinal : ℤ
  pub text : Text
  pub token_count : ℤ
  pub content_hash : Text
  pub section_path : List Text
  pub page_number : Option ℤ
  pub char_start : ℤ
  pub char_end : ℤ

pub record IngestionJobRecord : Type 0 where
  pub id : ℕ
  pub document_id : ℕ
  pub status : Text
  pub attempt_count : ℤ
  pub failure_code : Option Text
  pub created_at : Datetime
  pub updated_at : Datetime
  pub started_at : Option Datetime
  pub finished_at : Option Datetime

-- `Enum(value)`, which raises ValueError for another text
abbrev pub or_value_error : {A : Type 0} → Option A → Result A
or_value_error none = err value_error
or_value_error (some a) = ok a

-- `_document_to_record`
unfoldable pub document_to_record : Document → DocumentRecord
document_to_record d = record {
  id = d.id;
  original_filename = d.original_filename;
  storage_key = d.storage_key;
  media_type = media_type_value d.media_type;
  sha256 = d.sha256;
  size_bytes = d.size_bytes;
  status = document_status_value d.status;
  failure_code = d.failure_code;
  created_at = d.created_at;
  updated_at = d.updated_at;
}

-- `_record_to_document`
unfoldable pub record_to_document : DocumentRecord → Result Document
record_to_document r = do
  media_type ← or_value_error (media_type_of_value r.media_type)
  status ← or_value_error (document_status_of_value r.status)
  Document.post_init (record {
    id = r.id;
    original_filename = r.original_filename;
    storage_key = r.storage_key;
    media_type = media_type;
    sha256 = r.sha256;
    size_bytes = r.size_bytes;
    status = status;
    created_at = r.created_at;
    updated_at = r.updated_at;
    failure_code = r.failure_code;
  })

-- `_chunk_to_record`
unfoldable pub chunk_to_record : Chunk → ChunkRecord
chunk_to_record c = record {
  id = c.id;
  document_id = c.document_id;
  ordinal = c.ordinal;
  text = c.text;
  token_count = c.token_count;
  content_hash = c.content_hash;
  section_path = c.locator.section_path;
  page_number = c.locator.page_number;
  char_start = c.locator.char_start;
  char_end = c.locator.char_end;
}

-- `_record_to_chunk`
unfoldable pub record_to_chunk : ChunkRecord → Result Chunk
record_to_chunk r = do
  locator ← Locator.post_init (record {
    section_path = r.section_path;
    page_number = r.page_number;
    char_start = r.char_start;
    char_end = r.char_end;
  })
  Chunk.post_init (record {
    id = r.id;
    document_id = r.document_id;
    ordinal = r.ordinal;
    text = r.text;
    token_count = r.token_count;
    content_hash = r.content_hash;
    locator = locator;
  })

-- `_job_to_record`
unfoldable pub job_to_record : IngestionJob → IngestionJobRecord
job_to_record j = record {
  id = j.id;
  document_id = j.document_id;
  status = job_status_value j.status;
  attempt_count = j.attempt_count;
  failure_code = j.failure_code;
  created_at = j.created_at;
  updated_at = j.updated_at;
  started_at = j.started_at;
  finished_at = j.finished_at;
}

-- `_record_to_job`
unfoldable pub record_to_job : IngestionJobRecord → Result IngestionJob
record_to_job r = do
  status ← or_value_error (job_status_of_value r.status)
  Job.post_init (record {
    id = r.id;
    document_id = r.document_id;
    status = status;
    attempt_count = r.attempt_count;
    created_at = r.created_at;
    updated_at = r.updated_at;
    started_at = r.started_at;
    finished_at = r.finished_at;
    failure_code = r.failure_code;
  })
