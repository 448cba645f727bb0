-- ===== src/Api/Problems.antt =====
-- The exception handlers of knowledge_search/api/errors.py, as functions to the problem document
-- and its headers. `message` is the text that the exception carries, `path` that of the request.
use enterprise_knowledge_sea.Common.{
  ℕ, ◌≡◌, ◌≤◌, ◌<◌, ◌⊎◌, Option, none, some, Text, codes, List, [], ◌∷◌, ◌++◌, arith, map,
}
use enterprise_knowledge_sea.Status.{DocumentStatus, document_status_value}
use enterprise_knowledge_sea.Errors.{
  Error, IngestionErrorCode, file_too_large, unsupported_media_type, media_type_mismatch,
  ingestion_error, duplicate_document, document_not_found, job_not_found, queue_dispatch,
  embedding_error, vector_index_error, search_query_error, generation_error, deletion_conflict,
  cleanup_error, request_validation, Issue, LocationPart, location_key, location_position,
}
use enterprise_knowledge_sea.Application.Ingestion.{error_code_value}
use enterprise_knowledge_sea.Platform.{Platform}

-- an issue of `_validation_error`
pub record ReportedIssue : Type 0 where
  pub location : List Text
  pub message : Text
  pub kind : Text

-- the value of an extension
pub data Extension : Type 0 where
  plain : Text → Extension
  issues : List ReportedIssue → Extension

pub record Problem : Type 0 where
  pub problem_type : Text
  pub title : Text
  pub status : ℕ
  pub detail : Text
  pub instance_path : Text
  pub code : Text
  pub extensions : List (Text × Extension)
  pub retry_after : Option Text

-- `_problem_response`; an empty list of extensions stands for `None`
unfoldable pub problem_response :
    Text → ℕ → Text → Text → Text → List (Text × Extension) → Option Text → Problem
problem_response path status title detail code extensions retry_after = record {
  problem_type = codes "urn:enterprise-knowledge-search:problem:" ++ code;
  title = title;
  status = status;
  detail = detail;
  instance_path = path;
  code = code;
  extensions = extensions;
  retry_after = retry_after;
}

-- the status code of a rejected document
unfoldable pub ingestion_status : IngestionErrorCode → ℕ
ingestion_status file_too_large = 413
ingestion_status unsupported_media_type = 415
ingestion_status media_type_mismatch = 415
ingestion_status _ = 400

module _ (p : Platform) (path : Text) where
  -- an extension that is left out where the value is `None`
  abbrev pub with_uuid : Text → Option ℕ → List (Text × Extension) → List (Text × Extension)
  with_uuid key none rest = rest
  with_uuid key (some id) rest = (key, plain (p.uuid_text id)) ∷ rest

  -- `_queue_unavailable`
  unfoldable pub queue_unavailable : Option ℕ → Option ℕ → Problem
  queue_unavailable document_id job_id =
      problem_response path 503 (codes "Ingestion queue unavailable")
        (codes "The document was stored but could not be scheduled for processing.")
        (codes "queue_unavailable")
        (with_uuid (codes "document_id") document_id
          (with_uuid (codes "ingestion_job_id") job_id []))
        (some (codes "5"))

  -- `_retrieval_unavailable`
  unfoldable pub retrieval_unavailable : Problem
  retrieval_unavailable =
      problem_response path 503 (codes "Retrieval dependency unavailable")
        (codes "Semantic retrieval is temporarily unavailable.") (codes "retrieval_unavailable") []
        (some (codes "5"))

  -- `_ingestion_error`
  unfoldable pub ingestion_problem : Text → IngestionErrorCode → Problem
  ingestion_problem message code =
      problem_response path (ingestion_status code) (codes "Document rejected") message
        (error_code_value code) [] none

  -- `_duplicate_document`
  unfoldable pub duplicate_problem : Text → ℕ → Problem
  duplicate_problem message id =
      problem_response path 409 (codes "Duplicate document") message (codes "duplicate_document")
        ((codes "existing_document_id", plain (p.uuid_text id)) ∷ []) none

  -- `_document_not_found`
  unfoldable pub document_missing : Text → Problem
  document_missing message =
      problem_response path 404 (codes "Document not found") message (codes "document_not_found") []
        none

  -- `_job_not_found`
  unfoldable pub job_missing : Text → Problem
  job_missing message =
      problem_response path 404 (codes "Ingestion job not found") message
        (codes "ingestion_job_not_found") [] none

  -- `_search_query_error`
  unfoldable pub search_query_rejected : Text → Problem
  search_query_rejected message =
      problem_response path 400 (codes "Search query rejected") message
        (codes "invalid_search_query") [] none

  -- `_generation_unavailable`
  unfoldable pub generation_unavailable : Problem
  generation_unavailable =
      problem_response path 502 (codes "Answer provider unavailable")
        (codes "Answer generation failed; document search remains available.")
        (codes "generation_unavailable") [] none

  -- `_document_deletion_conflict`
  unfoldable pub deletion_refused : Text → DocumentStatus → Problem
  deletion_refused message status =
      problem_response path 409 (codes "Document deletion conflict") message
        (codes "document_deletion_conflict")
        ((codes "document_status", plain (document_status_value status)) ∷ []) none

  -- `_document_cleanup_failed`
  unfoldable pub cleanup_incomplete : Problem
  cleanup_incomplete =
      problem_response path 503 (codes "Document cleanup incomplete")
        (codes "The document is unavailable to search, but cleanup must be retried.")
        (codes "document_cleanup_incomplete") [] (some (codes "5"))

  -- `str(part)`
  abbrev location_text : LocationPart → Text
  location_text (location_key name) = name
  location_text (location_position n) = p.int_text n

  -- an item of the list comprehension
  unfoldable pub reported : Issue → ReportedIssue
  reported issue = record {
    location = map location_text issue.location;
    message = issue.message;
    kind = issue.kind;
  }

  -- `_validation_error`
  unfoldable pub request_invalid : List Issue → Problem
  request_invalid found =
      problem_response path 422 (codes "Request validation failed")
        (codes "One or more request values are invalid.") (codes "request_validation_failed")
        ((codes "issues", issues (map reported found)) ∷ []) none

  -- The handlers that `register_error_handlers` adds: `none` where no handler takes the exception.
  unfoldable pub problem_of : Text → Error → Option Problem
  problem_of message (ingestion_error code) = some (ingestion_problem message code)
  problem_of message (duplicate_document id) = some (duplicate_problem message id)
  problem_of message (document_not_found id) = some (document_missing message)
  problem_of message (job_not_found id) = some (job_missing message)
  problem_of message (queue_dispatch document_id job_id) =
      some (queue_unavailable document_id job_id)
  problem_of message embedding_error = some retrieval_unavailable
  problem_of message vector_index_error = some retrieval_unavailable
  problem_of message search_query_error = some (search_query_rejected message)
  problem_of message generation_error = some generation_unavailable
  problem_of message (deletion_conflict id status) = some (deletion_refused message status)
  problem_of message cleanup_error = some cleanup_incomplete
  problem_of message (request_validation found) = some (request_invalid found)
  problem_of message _ = none

  -- Every problem that a handler builds has a status of the client's or the server's errors, the type
  -- of its code and the path of the request, and it asks for a retry, after 5 seconds, where the
  -- status is 503 and nowhere else.
  pub problem_of_lem :
      (message : Text) (e : Error) (problem : Problem)
      → problem_of message e ≡ some problem
      → (400 ≤ problem.status)
        × (problem.status < 600)
        × (problem.problem_type ≡ codes "urn:enterprise-knowledge-search:problem:" ++ problem.code)
        × (problem.instance_path ≡ path)
        × (((problem.status ≡ 503) × (problem.retry_after ≡ some (codes "5")))
            ⊎ ((problem.status < 503) × (problem.retry_after ≡ none)))
  unfolding problem_of problem_response ingestion_status queue_unavailable retrieval_unavailable
      ingestion_problem duplicate_problem document_missing job_missing search_query_rejected
      generation_unavailable deletion_refused cleanup_incomplete request_invalid
  problem_of_lem message e problem h = ground arith
