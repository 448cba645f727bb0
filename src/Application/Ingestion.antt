-- ===== src/Application/Ingestion.antt =====
-- class IngestionJobProcessor of knowledge_search/application/ingestion.py. Each call that reads
-- the clock has a reading of its own, `clock n`. What other sessions commit between two
-- transactions of a run is an argument, `Interference`.
pub mod Pairs
pub mod Saving
pub mod Steps
pub mod Consistency
pub mod Finish
pub mod Transactions
pub mod Run
pub mod Outcomes
use enterprise_knowledge_sea.Common.{
  ℕ, Bool, true, false, ◌&&◌, ◌||◌, not, Option, none, some, Text, codes, List, [], ◌∷◌, map,
  if◌then◌else◌,
}
use enterprise_knowledge_sea.Status.{
  DocumentStatus, IngestionJobStatus, deleting, ready, processing, running, succeeded,
  document_status_eq, job_status_eq,
}
use enterprise_knowledge_sea.Errors.{
  Error, Result, ok, err, job_not_found, document_not_found, runtime_error, ingestion_error,
  embedding_error, vector_index_error, IngestionErrorCode, empty_upload, file_too_large,
  invalid_filename, invalid_storage_key, media_type_mismatch, storage_conflict,
  unsupported_media_type, invalid_text_encoding, invalid_pdf, encrypted_pdf,
  pdf_page_limit_exceeded, no_extractable_text,
}
use enterprise_knowledge_sea.Errors as Errors
use enterprise_knowledge_sea.Domain.Checks.{Datetime}
use enterprise_knowledge_sea.Domain.Document
use enterprise_knowledge_sea.Domain.Document.{Document}
use enterprise_knowledge_sea.Domain.Job
use enterprise_knowledge_sea.Domain.Job.{IngestionJob}
use enterprise_knowledge_sea.Domain.Chunk.{Chunk}
use enterprise_knowledge_sea.Persistence.Session.{
  Database, Tx, ◌>>=◌, ◌>>◌, pure, raise, lift, transaction,
}
use enterprise_knowledge_sea.Persistence.Repositories.{
  get_document, save_document, add_many, delete_chunks, get_job, save_job, increment_revision,
}

-- `IngestionErrorCode.value`
unfoldable pub error_code_value : IngestionErrorCode → Text
error_code_value empty_upload = codes "empty_upload"
error_code_value file_too_large = codes "file_too_large"
error_code_value invalid_filename = codes "invalid_filename"
error_code_value invalid_storage_key = codes "invalid_storage_key"
error_code_value media_type_mismatch = codes "media_type_mismatch"
error_code_value storage_conflict = codes "storage_conflict"
error_code_value unsupported_media_type = codes "unsupported_media_type"
error_code_value invalid_text_encoding = codes "invalid_text_encoding"
error_code_value invalid_pdf = codes "invalid_pdf"
error_code_value encrypted_pdf = codes "encrypted_pdf"
error_code_value pdf_page_limit_exceeded = codes "pdf_page_limit_exceeded"
error_code_value no_extractable_text = codes "no_extractable_text"

-- `_failure_code`
unfoldable pub failure_code : Error → Text
failure_code (ingestion_error code) = error_code_value code
failure_code embedding_error = codes "embedding_failed"
failure_code vector_index_error = codes "vector_index_failed"
failure_code _ = codes "ingestion_failed"

-- `job.requeue()` and `document.queue()` of a failed pair
unfoldable pub requeue_failed :
    (ℕ → Datetime) → IngestionJob → Document → Result (IngestionJob × Document)
requeue_failed clock j d =
    if job_status_eq j.status IngestionJobStatus.failed
      && document_status_eq d.status DocumentStatus.failed
    then Errors.◌>>=◌ (Job.requeue none (clock 0) j)
        (λ j'. Errors.◌>>=◌ (Document.queue none (clock 1) d) (λ d'. ok (j', d')))
    else ok (j, d)

module _ {S : Type 0} (db : Database S) where
  -- the end of `_start_job`, for a pair that is to be processed
  unfoldable pub begin_attempt : (ℕ → Datetime) → IngestionJob → Document → Tx S (Option ℕ)
  begin_attempt clock j d =
      if not (job_status_eq j.status IngestionJobStatus.queued)
        || not (document_status_eq d.status DocumentStatus.queued)
      then raise runtime_error
      else do
        d' ← lift (Document.start_processing none (clock 2) d)
        save_document db d'
        j' ← lift (Job.start none (clock 3) j)
        save_job db j'
        pure (some d.id)

  unfoldable pub start_found : (ℕ → Datetime) → IngestionJob → Document → Tx S (Option ℕ)
  start_found clock j d =
      if document_status_eq d.status deleting
      then pure none
      else if job_status_eq j.status succeeded && document_status_eq d.status ready
      then pure none
      else do pair ← lift (requeue_failed clock j d); begin_attempt clock pair.0 pair.1

  -- the body of `_start_job`
  unfoldable pub start_job : (ℕ → Datetime) → ℕ → Tx S (Option ℕ)
  start_job clock job_id = do
    found_job ← get_job db job_id
    elim found_job [
      | none ↦ raise (job_not_found job_id)
      | some j ↦ do
        found_document ← get_document db j.document_id
        elim found_document [
          | none ↦ raise (document_not_found j.document_id)
          | some d ↦ start_found clock j d
        ]
    ]

  -- the second transaction of `process`: the chunks and the two statuses, in one commit
  unfoldable pub finish_job : (ℕ → Datetime) → ℕ → ℕ → List Chunk → Tx S (Unit {0})
  finish_job clock document_id job_id chunks = do
    found_document ← get_document db document_id
    found_job ← get_job db job_id
    elim found_document [
      | none ↦ raise (document_not_found document_id)
      | some d ↦ elim found_job [
        | none ↦ raise (job_not_found job_id)
        | some j ↦ do
          delete_chunks db document_id
          add_many db chunks
          d' ← lift (Document.mark_ready none (clock 4) d)
          save_document db d'
          j' ← lift (Job.succeed none (clock 5) j)
          save_job db j'
          increment_revision db
          pure tt
      ]
    ]

  -- `if document is not None and document.status is PROCESSING: ...`
  unfoldable pub fail_document : (ℕ → Datetime) → Text → Option Document → Tx S (Unit {0})
  fail_document clock code none = pure tt
  fail_document clock code (some d) =
      if document_status_eq d.status processing
      then (do d' ← lift (Document.mark_failed code none (clock 6) d); save_document db d')
      else pure tt

  unfoldable pub fail_job : (ℕ → Datetime) → Text → Option IngestionJob → Tx S (Unit {0})
  fail_job clock code none = pure tt
  fail_job clock code (some j) =
      if job_status_eq j.status running
      then (do j' ← lift (Job.fail code none (clock 7) j); save_job db j')
      else pure tt

  -- the body of `_mark_failed`
  unfoldable pub mark_failed : (ℕ → Datetime) → ℕ → ℕ → Text → Tx S (Unit {0})
  mark_failed clock document_id job_id code = do
    found_document ← get_document db document_id
    found_job ← get_job db job_id
    fail_document clock code found_document
    fail_job clock code found_job

-- The collaborators: the document store and the content preparer, the embedding provider, and the
-- vector index with a state of its own.
pub record Ports (V Vector : Type 0) : Type 0 where
  pub open_and_prepare : Document → Result (List Chunk)
  pub embed_documents : List Text → Result (List Vector)
  pub dimensions : ℕ
  pub ensure_collection : ℕ → V → Result (Unit {0}) × V
  pub upsert : Document → List Chunk → List Vector → V → Result (Unit {0}) × V
  pub delete_document : ℕ → V → Result (Unit {0}) × V

-- What other sessions commit before each later transaction of a run.
pub record Interference (S : Type 0) : Type 0 where
  pub before_load : S → S
  pub before_finish : S → S
  pub before_mark : S → S

module _ {S V Vector : Type 0} (db : Database S) (ports : Ports V Vector)
    (others : Interference S) where
  -- the embedding and the indexing of the prepared chunks, and the second transaction
  unfoldable pub index_chunks :
      (ℕ → Datetime) → ℕ → ℕ → Document → List Chunk → S → V → Result (Unit {0}) × S × V
  index_chunks clock document_id job_id d chunks s v =
      elim (ports.embed_documents (map (λ c. c.text) chunks)) [
        | err e ↦ (err e, s, v)
        | ok vectors ↦
            let (ensured, v1) = ports.ensure_collection ports.dimensions v in
            elim ensured [
              | err e ↦ (err e, s, v1)
              | ok _ ↦
                  let (upserted, v2) = ports.upsert d chunks vectors v1 in
                  elim upserted [
                    | err e ↦ (err e, s, v2)
                    | ok _ ↦
                        let (done, t) =
                          transaction db (finish_job db clock document_id job_id chunks)
                            (others.before_finish s) in
                        (done, t, v2)
                  ]
            ]
      ]

  -- the body of the `try` in `process`
  unfoldable pub attempt : (ℕ → Datetime) → ℕ → ℕ → S → V → Result (Unit {0}) × S × V
  attempt clock document_id job_id s v =
      let (loaded, s1) = transaction db (get_document db document_id) (others.before_load s) in
      elim loaded [
        | err e ↦ (err e, s1, v)
        | ok none ↦ (err (document_not_found document_id), s1, v)
        | ok (some d) ↦ elim (ports.open_and_prepare d) [
          | err e ↦ (err e, s1, v)
          | ok chunks ↦ index_chunks clock document_id job_id d chunks s1 v
        ]
      ]

  -- `with suppress(VectorIndexError): ...` and the final `raise`
  abbrev reraise : Error → Result (Unit {0}) → Result (Unit {0})
  reraise e (ok _) = err e
  reraise e (err vector_index_error) = err e
  reraise e (err other) = err other

  -- the `except` block of `process`
  unfoldable pub give_up : (ℕ → Datetime) → ℕ → ℕ → Error → S → V → Result (Unit {0}) × S × V
  give_up clock document_id job_id e s v =
      let (marked, t) =
        transaction db (mark_failed db clock document_id job_id (failure_code e))
          (others.before_mark s) in
      elim marked [
        | err e' ↦ (err e', t, v)
        | ok _ ↦ let (deleted, w) = ports.delete_document document_id v in (reraise e deleted, t, w)
      ]

  -- `process`
  unfoldable pub process : (ℕ → Datetime) → ℕ → S → V → Result (Unit {0}) × S × V
  process clock job_id s v =
      let (started, s1) = transaction db (start_job db clock job_id) s in
      elim started [
        | err e ↦ (err e, s1, v)
        | ok none ↦ (ok tt, s1, v)
        | ok (some document_id) ↦
            let (done, s2, v2) = attempt clock document_id job_id s1 v in
            elim done [ ok _ ↦ (ok tt, s2, v2) | err e ↦ give_up clock document_id job_id e s2 v2 ]
      ]
