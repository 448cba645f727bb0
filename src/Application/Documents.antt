-- ===== src/Application/Documents.antt =====
-- knowledge_search/application/documents.py. A failing call of a port changes its state too, so a
-- port returns its result with the state it leaves.
pub mod Deletion
pub mod Submission
pub mod ReadBack
use enterprise_knowledge_sea.Common.{
  ℕ, Bool, true, false, ◌&&◌, ◌||◌, not, Option, none, some, Text, codes, text_eq, strip, is_empty,
  List, [], ◌∷◌, map, if◌then◌else◌, ◌==◌, ltb, length, ℤ,
}
use enterprise_knowledge_sea.Status.{
  DocumentMediaType, pdf, markdown, text, DocumentStatus, ready, deleting, document_status_eq,
  media_type_of_value,
}
use enterprise_knowledge_sea.Errors.{
  Error, Result, ok, err, raise_if, ingestion_error, invalid_filename, unsupported_media_type,
  media_type_mismatch, duplicate_document, integrity_error, queue_dispatch, document_not_found,
  job_not_found, deletion_conflict, cleanup_error, vector_index_error, os_error,
}
use enterprise_knowledge_sea.Errors as Errors
use enterprise_knowledge_sea.Platform.{contains}
use enterprise_knowledge_sea.Domain.Checks.{Datetime}
use enterprise_knowledge_sea.Domain.Document
use enterprise_knowledge_sea.Domain.Document.{Document}
use enterprise_knowledge_sea.Domain.Job
use enterprise_knowledge_sea.Domain.Job.{IngestionJob}
use enterprise_knowledge_sea.Ingestion.Models.{StoredDocument}
use enterprise_knowledge_sea.Persistence.Session.{
  Database, Tx, ◌>>=◌, ◌>>◌, pure, raise, lift, transaction,
}
use enterprise_knowledge_sea.Persistence.Repositories.{
  add_document, get_document, get_by_hash, list_documents, save_document, delete_document, add_job,
  get_job, list_jobs, save_job, increment_revision,
}

-- `any(ord(character) < 32 for character in filename)`
unfoldable pub has_control : Text → Bool
has_control [] = false
has_control (c ∷ s) = ltb c 32 || has_control s

-- `_validate_filename`
unfoldable pub validate_filename : Text → Result Text
validate_filename filename =
    Errors.◌>>◌
      (raise_if
        (is_empty filename
          || ltb 255 (length filename)
          || not (text_eq filename (strip filename))
          || contains b'/' filename
          || contains b'\\' filename
          || has_control filename)
        (ingestion_error invalid_filename))
      (ok filename)

-- `text.partition(";")[0]`
unfoldable pub before_semicolon : Text → Text
before_semicolon [] = []
before_semicolon (c ∷ s) = let rest = before_semicolon s in if c == b';' then [] else c ∷ rest

-- the text from the last dot on, where there is one
unfoldable pub from_last_dot : Text → Option Text
from_last_dot [] = none
from_last_dot (c ∷ s) =
    let later = from_last_dot s in
    elim later [ some t ↦ some t | none ↦ if c == b'.' then some (c ∷ s) else none ]

-- `PurePath(filename).suffix` of a name without slashes: neither a leading nor a trailing dot
-- begins a suffix
unfoldable pub suffix : Text → Text
suffix [] = []
suffix (c ∷ s) = elim (from_last_dot s) [
  | none ↦ []
  | some [] ↦ []
  | some (d ∷ []) ↦ []
  | some (d ∷ e ∷ t) ↦ d ∷ e ∷ t
]

-- `ALLOWED_EXTENSIONS`
unfoldable pub allowed_extensions : DocumentMediaType → List Text
allowed_extensions pdf = codes ".pdf" ∷ []
allowed_extensions markdown = codes ".md" ∷ codes ".markdown" ∷ []
allowed_extensions text = codes ".txt" ∷ []

unfoldable pub any_text : Text → List Text → Bool
any_text t [] = false
any_text t (s ∷ rest) = text_eq t s || any_text t rest

-- `_validate_media_type`; `lower` is `str.lower`
unfoldable pub validate_media_type : (Text → Text) → Text → Option Text → Result DocumentMediaType
validate_media_type lower filename content_type =
    let given : Text = elim content_type [ none ↦ [] | some t ↦ t ] in
    elim (media_type_of_value (lower (strip (before_semicolon given)))) [
      | none ↦ err (ingestion_error unsupported_media_type)
      | some media_type ↦
          Errors.◌>>◌
            (raise_if (not (any_text (lower (suffix filename)) (allowed_extensions media_type)))
              (ingestion_error media_type_mismatch))
            (ok media_type)
    ]

pub record DocumentSubmission : Type 0 where
  pub document : Document
  pub job : IngestionJob

-- The document store over a state of files, and the ingestion queue over a state of its own.
pub record SubmissionPorts (Blob Files Queue : Type 0) : Type 0 where
  pub save : ℕ → DocumentMediaType → Blob → ℤ → Files → Result StoredDocument × Files
  pub delete_file : Text → Files → Result (Unit {0}) × Files
  pub enqueue : ℕ → Queue → Result (Unit {0}) × Queue
  pub lower : Text → Text
  pub max_upload_bytes : ℤ

module _ {S : Type 0} (db : Database S) where
  -- the first transaction of `submit`
  unfoldable pub register : Document → IngestionJob → Tx S (Unit {0})
  register document job = do
    existing ← get_by_hash db document.sha256
    elim existing [
      | some other ↦ raise (duplicate_document other.id)
      | none ↦ do add_document db document; add_job db job
    ]

  -- the body of `_mark_dispatch_failed`
  unfoldable pub mark_dispatch_failed : (ℕ → Datetime) → ℕ → ℕ → Tx S (Unit {0})
  mark_dispatch_failed clock document_id job_id = do
    found_document ← get_document db document_id
    found_job ← get_job db job_id
    elim found_document [
      | none ↦ pure tt
      | some d ↦ elim found_job [
        | none ↦ pure tt
        | some j ↦ do
          d' ← lift (Document.mark_failed (codes "queue_unavailable") none (clock 3) d)
          save_document db d'
          j' ← lift (Job.fail (codes "queue_unavailable") none (clock 4) j)
          save_job db j'
      ]
    ]

  -- the first transaction of `delete`: the document and the ids of its jobs
  unfoldable pub begin_deletion : Datetime → ℕ → Tx S (Document × List ℕ)
  begin_deletion clock document_id = do
    found ← get_document db document_id
    elim found [
      | none ↦ raise (document_not_found document_id)
      | some d ↦ do
        current ←
            (if document_status_eq d.status deleting
              then pure d
              else (if document_status_eq d.status ready
                    || document_status_eq d.status DocumentStatus.failed
                  then (do
                    d' ← lift (Document.mark_deleting none clock d)
                    save_document db d'
                    increment_revision db
                    pure d')
                  else raise (deletion_conflict d.id d.status)))
        jobs ← list_jobs db current.id
        pure (current, map (λ j. j.id) jobs)
    ]

  -- class DocumentQueries
  unfoldable pub query_document : ℕ → S → Result Document × S
  query_document document_id s =
      let (found, t) = transaction db (get_document db document_id) s in
      elim found [
        | err e ↦ (err e, t)
        | ok none ↦ (err (document_not_found document_id), t)
        | ok (some d) ↦ (ok d, t)
      ]

  unfoldable pub query_documents : ℕ → ℕ → S → Result (List Document) × S
  query_documents offset limit s = transaction db (list_documents db offset limit) s

  unfoldable pub query_job : ℕ → S → Result IngestionJob × S
  query_job job_id s =
      let (found, t) = transaction db (get_job db job_id) s in
      elim found [
        | err e ↦ (err e, t)
        | ok none ↦ (err (job_not_found job_id), t)
        | ok (some j) ↦ (ok j, t)
      ]
