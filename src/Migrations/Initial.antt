-- ===== src/Migrations/Initial.antt =====
-- migrations/versions/20260730_01_initial_document_schema.py
use enterprise_knowledge_sea.Common.{Text, codes, List, [], ◌∷◌, pos}
use enterprise_knowledge_sea.Persistence.Schema.{
  uuid_type, text_type, integer_type, big_integer_type, small_integer_type, timestamp_type,
  jsonb_type, tsvector_type, varchar, column_in, text_is, text_is_not, number_at_least,
  number_above, number_is, column_at_least, length_above, matches_sha256, is_array, is_null,
  is_not_null, both, either, Table, number_value,
}
use enterprise_knowledge_sea.Persistence.Schema.Models.{required, optional}
use enterprise_knowledge_sea.Migrations.{
  Operation, create_table, create_index, drop_table, drop_index, bulk_insert,
}

abbrev pub created_documents : Table
created_documents = record {
  name = codes "documents";
  columns =
      required (codes "id") uuid_type
      ∷ required (codes "original_filename") (varchar 255)
      ∷ required (codes "storage_key") (varchar 512)
      ∷ required (codes "media_type") (varchar 64)
      ∷ required (codes "sha256") (varchar 64)
      ∷ required (codes "size_bytes") big_integer_type
      ∷ required (codes "status") (varchar 32)
      ∷ optional (codes "failure_code") (varchar 128)
      ∷ required (codes "created_at") timestamp_type
      ∷ required (codes "updated_at") timestamp_type
      ∷ [];
  checks =
      (
        codes "ck_documents_failure_state",
        either
            (both (text_is (codes "status") (codes "failed")) (is_not_null (codes "failure_code")))
            (both (text_is_not (codes "status") (codes "failed")) (is_null (codes "failure_code"))),
      )
      ∷ (
        codes "ck_documents_media_type",
        column_in (codes "media_type")
            (codes "application/pdf" ∷ codes "text/markdown" ∷ codes "text/plain" ∷ []),
      )
      ∷ (codes "ck_documents_sha256", matches_sha256 (codes "sha256"))
      ∷ (codes "ck_documents_size_bytes", number_at_least (codes "size_bytes") 0)
      ∷ (
        codes "ck_documents_status",
        column_in (codes "status") (
            codes "uploaded"
            ∷ codes "queued"
            ∷ codes "processing"
            ∷ codes "ready"
            ∷ codes "failed"
            ∷ []),
      )
      ∷ [];
  keys = (codes "id" ∷ []) ∷ (codes "sha256" ∷ []) ∷ (codes "storage_key" ∷ []) ∷ [];
  references = [];
}

abbrev pub created_chunks : Table
created_chunks = record {
  name = codes "chunks";
  columns =
      required (codes "id") uuid_type
      ∷ required (codes "document_id") uuid_type
      ∷ required (codes "ordinal") integer_type
      ∷ required (codes "text") text_type
      ∷ required (codes "token_count") integer_type
      ∷ required (codes "content_hash") (varchar 64)
      ∷ required (codes "section_path") jsonb_type
      ∷ optional (codes "page_number") integer_type
      ∷ required (codes "char_start") integer_type
      ∷ required (codes "char_end") integer_type
      ∷ required (codes "search_vector") tsvector_type
      ∷ [];
  checks =
      (codes "ck_chunks_char_range", column_at_least (codes "char_end") (codes "char_start"))
      ∷ (codes "ck_chunks_char_start", number_at_least (codes "char_start") 0)
      ∷ (codes "ck_chunks_content_hash", matches_sha256 (codes "content_hash"))
      ∷ (codes "ck_chunks_ordinal", number_at_least (codes "ordinal") 0)
      ∷ (
        codes "ck_chunks_page_number",
        either (is_null (codes "page_number")) (number_above (codes "page_number") 0),
      )
      ∷ (codes "ck_chunks_section_path", is_array (codes "section_path"))
      ∷ (codes "ck_chunks_text", length_above (codes "text") 0)
      ∷ (codes "ck_chunks_token_count", number_above (codes "token_count") 0)
      ∷ [];
  keys = (codes "id" ∷ []) ∷ (codes "document_id" ∷ codes "ordinal" ∷ []) ∷ [];
  references = (codes "document_id", codes "documents") ∷ [];
}

abbrev pub created_jobs : Table
created_jobs = record {
  name = codes "ingestion_jobs";
  columns =
      required (codes "id") uuid_type
      ∷ required (codes "document_id") uuid_type
      ∷ required (codes "status") (varchar 32)
      ∷ required (codes "attempt_count") integer_type
      ∷ optional (codes "failure_code") (varchar 128)
      ∷ required (codes "created_at") timestamp_type
      ∷ required (codes "updated_at") timestamp_type
      ∷ optional (codes "started_at") timestamp_type
      ∷ optional (codes "finished_at") timestamp_type
      ∷ [];
  checks =
      (codes "ck_ingestion_jobs_attempt_count", number_at_least (codes "attempt_count") 0)
      ∷ (
        codes "ck_ingestion_jobs_failure_state",
        either
            (both (text_is (codes "status") (codes "failed")) (is_not_null (codes "failure_code")))
            (both (text_is_not (codes "status") (codes "failed")) (is_null (codes "failure_code"))),
      )
      ∷ (
        codes "ck_ingestion_jobs_status",
        column_in (codes "status")
            (codes "queued" ∷ codes "running" ∷ codes "succeeded" ∷ codes "failed" ∷ []),
      )
      ∷ [];
  keys = (codes "id" ∷ []) ∷ [];
  references = (codes "document_id", codes "documents") ∷ [];
}

abbrev pub created_revision : Table
created_revision = record {
  name = codes "corpus_revision";
  columns =
      required (codes "id") small_integer_type
      ∷ required (codes "revision") big_integer_type
      ∷ required (codes "updated_at") timestamp_type
      ∷ [];
  checks =
      (codes "ck_corpus_revision_non_negative", number_at_least (codes "revision") 0)
      ∷ (codes "ck_corpus_revision_singleton", number_is (codes "id") 1)
      ∷ [];
  keys = (codes "id" ∷ []) ∷ [];
  references = [];
}

-- `op.create_index(name, table, [column], unique=False)`
abbrev index : Text → Text → Text → Operation
index name table column =
    create_index (record { name = name; table = table; columns = column ∷ [] })

-- `upgrade`
unfoldable pub initial_upgrade : List Operation
initial_upgrade =
    create_table created_documents
    ∷ index (codes "ix_documents_created_at") (codes "documents") (codes "created_at")
    ∷ index (codes "ix_documents_status") (codes "documents") (codes "status")
    ∷ create_table created_chunks
    ∷ index (codes "ix_chunks_document_id") (codes "chunks") (codes "document_id")
    ∷ index (codes "ix_chunks_search_vector") (codes "chunks") (codes "search_vector")
    ∷ create_table created_jobs
    ∷ index (codes "ix_ingestion_jobs_document_id") (codes "ingestion_jobs") (codes "document_id")
    ∷ index (codes "ix_ingestion_jobs_status") (codes "ingestion_jobs") (codes "status")
    ∷ create_table created_revision
    ∷ bulk_insert (codes "corpus_revision")
        ((codes "id", number_value (pos 1)) ∷ (codes "revision", number_value (pos 0)) ∷ [])
    ∷ []

-- `downgrade`
unfoldable pub initial_downgrade : List Operation
initial_downgrade =
    drop_table (codes "corpus_revision")
    ∷ drop_index (codes "ix_ingestion_jobs_status")
    ∷ drop_index (codes "ix_ingestion_jobs_document_id")
    ∷ drop_table (codes "ingestion_jobs")
    ∷ drop_index (codes "ix_chunks_search_vector")
    ∷ drop_index (codes "ix_chunks_document_id")
    ∷ drop_table (codes "chunks")
    ∷ drop_index (codes "ix_documents_status")
    ∷ drop_index (codes "ix_documents_created_at")
    ∷ drop_table (codes "documents")
    ∷ []
