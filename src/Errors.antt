-- ===== src/Errors.antt =====
-- The exceptions of the program as values: knowledge_search/domain/documents.py (the two domain
-- errors), ingestion/errors.py, application/errors.py, retrieval/errors.py, generation/errors.py,
-- and those of Python and of the database that the code catches or lets through.
use enterprise_knowledge_sea.Common.{
  ◌≡◌, refl, ap, Bool, true, false, Option, ℕ, ◌⊎◌, inl, inr, Text, List, ℤ,
}
use enterprise_knowledge_sea.Status.{DocumentStatus}

-- The messages of `DomainValidationError`, one constructor for each.
pub data Violation : Type 0 where
  sha256_format naive_created_at naive_updated_at naive_started_at naive_finished_at : Violation
  blank_section_path page_number_not_positive negative_char_start inverted_char_range : Violation
  blank_filename blank_storage_key negative_size updated_before_created : Violation
  failed_without_code code_without_failure blank_failure_code time_moved_backwards : Violation
  negative_attempt_count started_before_created finished_before_created : Violation
  finished_before_started running_without_start finished_without_time : Violation
  negative_ordinal blank_chunk_text token_count_not_positive : Violation
  blank_citation_filename blank_excerpt citation_page_not_positive : Violation
  blank_extracted_text extracted_page_not_positive : Violation

pub data IngestionErrorCode : Type 0 where
  empty_upload file_too_large invalid_filename invalid_storage_key : IngestionErrorCode
  media_type_mismatch storage_conflict unsupported_media_type : IngestionErrorCode
  invalid_text_encoding invalid_pdf encrypted_pdf : IngestionErrorCode
  pdf_page_limit_exceeded no_extractable_text : IngestionErrorCode

-- one of `errors()` of FastAPI's `RequestValidationError`: the keys and positions of its `loc`
pub data LocationPart : Type 0 where
  location_key : Text → LocationPart
  location_position : ℤ → LocationPart

pub record Issue : Type 0 where
  pub location : List LocationPart
  pub message : Text
  pub kind : Text

pub data Error : Type 0 where
  domain_validation : Violation → Error
  invalid_state_transition : Error
  ingestion_error : IngestionErrorCode → Error
  queue_dispatch : Option ℕ → Option ℕ → Error
  embedding_error vector_index_error : Error
  document_not_found job_not_found duplicate_document : ℕ → Error
  deletion_conflict : ℕ → DocumentStatus → Error
  cleanup_error : Error
  search_query_error generation_error : Error
  lookup_error runtime_error integrity_error : Error
  type_error value_error os_error : Error
  -- `FileExistsError`, which is an `OSError`
  file_exists_error : Error
  -- `KeyError` and `IndexError`, which are `LookupError`s
  key_error index_error : Error
  -- `RedisError`, the two of `rq`, the two of `qdrant_client`, `httpx.HTTPError` and pydantic's
  -- `ValidationError`
  redis_error invalid_job_operation no_such_job : Error
  qdrant_api_error qdrant_response_error http_error validation_error : Error
  -- `RequestValidationError`
  request_validation : List Issue → Error
  -- any other exception of a library
  other_error : Error

-- What a call returns or raises.
pub data Result {ℓ} (A : Type ℓ) : Type ℓ where
  ok : A → Result A
  err : Error → Result A

-- `if condition: raise e`
abbrev pub raise_if : Bool → Error → Result (Unit {0})
raise_if true e = err e
raise_if false e = ok tt

-- `if condition: raise DomainValidationError(message)`
abbrev pub forbid : Bool → Violation → Result (Unit {0})
forbid b v = raise_if b (domain_validation v)

-- An exception skips the rest of a block.
infixl 5 ◌>>=◌
abbrev pub ◌>>=◌ {ℓ ℓ'} : {A : Type ℓ} {B : Type ℓ'} → Result A → (A → Result B) → Result B
err e >>= next = err e
ok a >>= next = next a

infixl 5 ◌>>◌
abbrev pub ◌>>◌ {ℓ} : {B : Type ℓ} → Result (Unit {0}) → Result B → Result B
check >> rest = check >>= λ _. rest

-- A block that returned: its first call returned a value, and so did the rest at that value.
pub >>=-eq-ok {ℓ ℓ'} :
    {A : Type ℓ} {B : Type ℓ'} (first : Result A) (next : A → Result B) {result : B}
    → (first >>= next) ≡ ok result
    → (value : A) × (first ≡ ok value) × (next value ≡ ok result)
>>=-eq-ok (err raised) next returned = cc
>>=-eq-ok (ok value) next returned = (value, refl, returned)

pub Result-cases {ℓ} :
    {A : Type ℓ} (r : Result A) → ((a : A) × (r ≡ ok a)) ⊎ ((e : Error) × (r ≡ err e))
Result-cases (ok a) = inl (a, refl)
Result-cases (err e) = inr (e, refl)

pub ok-injective {ℓ} : {A : Type ℓ} {a b : A} → Result.ok a ≡ ok b → a ≡ b
ok-injective {a = a} h = ap (λ r. elim r [ ok c ↦ c | err e ↦ a ]) h
