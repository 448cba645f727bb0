-- ===== src/Persistence/Schema/Rows.antt =====
-- The rows that knowledge_search/persistence/repositories.py writes, by the names of their columns.
use enterprise_knowledge_sea.Common.{
  ◌≡◌, Bool, true, Option, none, some, Text, codes, text_eq, List, [], ◌∷◌, length, ◌≤◌, ℤ,
  if◌then◌else◌,
}
use enterprise_knowledge_sea.Domain.Document.{Document}
use enterprise_knowledge_sea.Domain.Job.{IngestionJob}
use enterprise_knowledge_sea.Domain.Chunk.{Chunk}
use enterprise_knowledge_sea.Persistence.Records.{DocumentRecord, ChunkRecord, IngestionJobRecord}
use enterprise_knowledge_sea.Persistence.Schema.{
  Value, null_value, text_value, number_value, uuid_value, time_value, array_value, generated_value,
  Row, in_range, storable, all_of,
}

-- the attribute of a name, or null
abbrev attribute : List (Text × Value) → Row
attribute [] column = null_value
attribute ((name, value) ∷ more) column =
    let rest = attribute more column in if text_eq column name then value else rest

abbrev or_null : {A : Type 0} → (A → Value) → Option A → Value
or_null value none = null_value
or_null value (some a) = value a

-- the columns of `DocumentRecord`
unfoldable pub document_row : DocumentRecord → Row
document_row r = attribute (
    (codes "id", uuid_value r.id)
    ∷ (codes "original_filename", text_value r.original_filename)
    ∷ (codes "storage_key", text_value r.storage_key)
    ∷ (codes "media_type", text_value r.media_type)
    ∷ (codes "sha256", text_value r.sha256)
    ∷ (codes "size_bytes", number_value r.size_bytes)
    ∷ (codes "status", text_value r.status)
    ∷ (codes "failure_code", or_null text_value r.failure_code)
    ∷ (codes "created_at", time_value r.created_at)
    ∷ (codes "updated_at", time_value r.updated_at)
    ∷ [])

-- the columns of `ChunkRecord`; `indexable` tells whether `to_tsvector` returns for a text, which
-- PostgreSQL limits
unfoldable pub chunk_row : (Text → Bool) → ChunkRecord → Row
chunk_row indexable r = attribute (
    (codes "id", uuid_value r.id)
    ∷ (codes "document_id", uuid_value r.document_id)
    ∷ (codes "ordinal", number_value r.ordinal)
    ∷ (codes "text", text_value r.text)
    ∷ (codes "token_count", number_value r.token_count)
    ∷ (codes "content_hash", text_value r.content_hash)
    ∷ (codes "section_path", array_value r.section_path)
    ∷ (codes "page_number", or_null number_value r.page_number)
    ∷ (codes "char_start", number_value r.char_start)
    ∷ (codes "char_end", number_value r.char_end)
    ∷ (codes "search_vector", generated_value (indexable r.text))
    ∷ [])

-- the columns of `IngestionJobRecord`
unfoldable pub job_row : IngestionJobRecord → Row
job_row r = attribute (
    (codes "id", uuid_value r.id)
    ∷ (codes "document_id", uuid_value r.document_id)
    ∷ (codes "status", text_value r.status)
    ∷ (codes "attempt_count", number_value r.attempt_count)
    ∷ (codes "failure_code", or_null text_value r.failure_code)
    ∷ (codes "created_at", time_value r.created_at)
    ∷ (codes "updated_at", time_value r.updated_at)
    ∷ (codes "started_at", or_null time_value r.started_at)
    ∷ (codes "finished_at", or_null time_value r.finished_at)
    ∷ [])

-- A code of at most 128 characters that can be stored, if there is one.
abbrev pub IsShortCode : Option Text → Type 0
IsShortCode none = Unit
IsShortCode (some code) = (length code ≤ 128) × (storable code ≡ true)

-- The values are within the widths of their columns, and their texts can be stored.
pub record IsNarrowDocument (d : Document) : Type 0 where
  pub name : length d.original_filename ≤ 255
  pub key : length d.storage_key ≤ 512
  pub name_storable : storable d.original_filename ≡ true
  pub key_storable : storable d.storage_key ≡ true
  pub size : in_range 9223372036854775808 d.size_bytes ≡ true
  pub code : IsShortCode d.failure_code

pub record IsNarrowJob (j : IngestionJob) : Type 0 where
  pub attempts : in_range 2147483648 j.attempt_count ≡ true
  pub code : IsShortCode j.failure_code

abbrev pub IsNarrowPage : Option ℤ → Type 0
IsNarrowPage none = Unit
IsNarrowPage (some page) = in_range 2147483648 page ≡ true

-- The text can be indexed too.
pub record IsNarrowChunk (indexable : Text → Bool) (c : Chunk) : Type 0 where
  pub text : storable c.text ≡ true
  pub path : all_of storable c.locator.section_path ≡ true
  pub indexed : indexable c.text ≡ true
  pub ordinal : in_range 2147483648 c.ordinal ≡ true
  pub tokens : in_range 2147483648 c.token_count ≡ true
  pub page : IsNarrowPage c.locator.page_number
  pub start : in_range 2147483648 c.locator.char_start ≡ true
  pub end : in_range 2147483648 c.locator.char_end ≡ true
