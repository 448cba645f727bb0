-- ===== src/Persistence/Schema/Models.antt =====
-- The tables that knowledge_search/persistence/models.py declares.
use enterprise_knowledge_sea.Common.{true, false, Text, codes, List, [], ◌∷◌}
use enterprise_knowledge_sea.Persistence.Schema.{
  Column, ColumnType, uuid_type, text_type, integer_type, big_integer_type, small_integer_type,
  timestamp_type, jsonb_type, tsvector_type, varchar, Check, column_in, text_is, text_is_not,
  number_at_least, number_above, number_is, column_at_least, length_above, matches_sha256, is_array,
  is_null, is_not_null, both, either, Table,
}

-- `nullable=False`
abbrev pub required : Text → ColumnType → Column
required name type = record { name = name; type = type; nullable = false }

abbrev pub optional : Text → ColumnType → Column
optional name type = record { name = name; type = type; nullable = true }

-- `DOCUMENT_STATUS_VALUES`
abbrev pub document_status_values : List Text
document_status_values =
    codes "uploaded"
    ∷ codes "queued"
    ∷ codes "processing"
    ∷ codes "ready"
    ∷ codes "failed"
    ∷ codes "deleting"
    ∷ []

-- `JOB_STATUS_VALUES`
abbrev pub job_status_values : List Text
job_status_values = codes "queued" ∷ codes "running" ∷ codes "succeeded" ∷ codes "failed" ∷ []

abbrev pub media_type_values : List Text
media_type_values = codes "application/pdf" ∷ codes "text/markdown" ∷ codes "text/plain" ∷ []

-- `(status = 'failed' AND failure_code IS NOT NULL) OR (status <> 'failed' AND ... IS NULL)`
abbrev pub failure_state : Check
failure_state =
    either (both (text_is (codes "status") (codes "failed")) (is_not_null (codes "failure_code")))
      (both (text_is_not (codes "status") (codes "failed")) (is_null (codes "failure_code")))

-- `DocumentRecord`
abbrev pub documents : Table
documents = record {
  name = codes "documents";
  columns =
      required (codes "id") uuid_type
      ∷ required (codes "original_filename") (varchar 255)
      ∷ required (codes "storage_key") (varchar 512)
      ∷ required (codes "media_type") (varchar 64)
      ∷ required (codes "sha256") (varchar 64)
      ∷ required (codes "size_bytes") big_integer_type
      ∷ required (codes "status") (varchar 32)
      ∷ optional (codes "failure_code") (varchar 128)
      ∷ required (codes "created_at") timestamp_type
      ∷ required (codes "updated_at") timestamp_type
      ∷ [];
  checks =
      (codes "ck_documents_status", column_in (codes "status") document_status_values)
      ∷ (codes "ck_documents_media_type", column_in (codes "media_type") media_type_values)
      ∷ (codes "ck_documents_size_bytes", number_at_least (codes "size_bytes") 0)
      ∷ (codes "ck_documents_sha256", matches_sha256 (codes "sha256"))
      ∷ (codes "ck_documents_failure_state", failure_state)
      ∷ [];
  keys = (codes "id" ∷ []) ∷ (codes "storage_key" ∷ []) ∷ (codes "sha256" ∷ []) ∷ [];
  references = [];
}

-- `ChunkRecord`
abbrev pub chunks : Table
chunks = record {
  name = codes "chunks";
  columns =
      required (codes "id") uuid_type
      ∷ required (codes "document_id") uuid_type
      ∷ required (codes "ordinal") integer_type
      ∷ required (codes "text") text_type
      ∷ required (codes "token_count") integer_type
      ∷ required (codes "content_hash") (varchar 64)
      ∷ required (codes "section_path") jsonb_type
      ∷ optional (codes "page_number") integer_type
      ∷ required (codes "char_start") integer_type
      ∷ required (codes "char_end") integer_type
      ∷ required (codes "search_vector") tsvector_type
      ∷ [];
  checks =
      (codes "ck_chunks_ordinal", number_at_least (codes "ordinal") 0)
      ∷ (codes "ck_chunks_token_count", number_above (codes "token_count") 0)
      ∷ (codes "ck_chunks_char_start", number_at_least (codes "char_start") 0)
      ∷ (codes "ck_chunks_char_range", column_at_least (codes "char_end") (codes "char_start"))
      ∷ (codes "ck_chunks_text", length_above (codes "text") 0)
      ∷ (
        codes "ck_chunks_page_number",
        either (is_null (codes "page_number")) (number_above (codes "page_number") 0),
      )
      ∷ (codes "ck_chunks_section_path", is_array (codes "section_path"))
      ∷ (codes "ck_chunks_content_hash", matches_sha256 (codes "content_hash"))
      ∷ [];
  keys = (codes "id" ∷ []) ∷ (codes "document_id" ∷ codes "ordinal" ∷ []) ∷ [];
  references = (codes "document_id", codes "documents") ∷ [];
}

-- `IngestionJobRecord`
abbrev pub ingestion_jobs : Table
ingestion_jobs = record {
  name = codes "ingestion_jobs";
  columns =
      required (codes "id") uuid_type
      ∷ required (codes "document_id") uuid_type
      ∷ required (codes "status") (varchar 32)
      ∷ required (codes "attempt_count") integer_type
      ∷ optional (codes "failure_code") (varchar 128)
      ∷ required (codes "created_at") timestamp_type
      ∷ required (codes "updated_at") timestamp_type
      ∷ optional (codes "started_at") timestamp_type
      ∷ optional (codes "finished_at") timestamp_type
      ∷ [];
  checks =
      (codes "ck_ingestion_jobs_status", column_in (codes "status") job_status_values)
      ∷ (codes "ck_ingestion_jobs_attempt_count", number_at_least (codes "attempt_count") 0)
      ∷ (codes "ck_ingestion_jobs_failure_state", failure_state)
      ∷ [];
  keys = (codes "id" ∷ []) ∷ [];
  references = (codes "document_id", codes "documents") ∷ [];
}

-- `CorpusRevisionRecord`
abbrev pub corpus_revision : Table
corpus_revision = record {
  name = codes "corpus_revision";
  columns =
      required (codes "id") small_integer_type
      ∷ required (codes "revision") big_integer_type
      ∷ required (codes "updated_at") timestamp_type
      ∷ [];
  checks =
      (codes "ck_corpus_revision_singleton", number_is (codes "id") 1)
      ∷ (codes "ck_corpus_revision_non_negative", number_at_least (codes "revision") 0)
      ∷ [];
  keys = (codes "id" ∷ []) ∷ [];
  references = [];
}

-- `Base.metadata`
abbrev pub declared : List Table
declared = documents ∷ chunks ∷ ingestion_jobs ∷ corpus_revision ∷ []
