-- ===== src/Persistence/Repositories.antt =====
-- The repositories of knowledge_search/persistence/repositories.py.
use enterprise_knowledge_sea.Common.{ℕ, suc, Option, none, some, Text, List, [], ◌∷◌, map}
use enterprise_knowledge_sea.Status.{document_status_value, job_status_value, media_type_value}
use enterprise_knowledge_sea.Errors.{Result, ok, err, lookup_error}
use enterprise_knowledge_sea.Errors as Errors
use enterprise_knowledge_sea.Domain.Document.{Document}
use enterprise_knowledge_sea.Domain.Job.{IngestionJob}
use enterprise_knowledge_sea.Domain.Chunk.{Chunk}
use enterprise_knowledge_sea.Persistence.Records.{
  document_to_record, record_to_document, job_to_record, record_to_job, chunk_to_record,
  record_to_chunk,
}
use enterprise_knowledge_sea.Persistence.Session.{Database, Tx, lift, modify}

-- `None` for no row, or the domain value of the row
abbrev pub converted : {R A : Type 0} → (R → Result A) → Option R → Result (Option A)
converted f none = ok none
converted f (some r) = elim (f r) [ ok a ↦ ok (some a) | err e ↦ err e ]

-- a comprehension of conversions
unfoldable pub convert_all : {R A : Type 0} → (R → Result A) → List R → Result (List A)
convert_all f [] = ok []
convert_all f (r ∷ rs) =
    Errors.◌>>=◌ (f r) (λ a. Errors.◌>>=◌ (convert_all f rs) (λ more. ok (a ∷ more)))

module _ {S : Type 0} (db : Database S) where
  -- SqlAlchemyDocumentRepository
  unfoldable pub add_document : Document → Tx S (Unit {0})
  add_document d = modify (db.write_document (document_to_record d))

  unfoldable pub get_document : ℕ → Tx S (Option Document)
  get_document id s = lift (converted record_to_document (db.find_document id s)) s

  unfoldable pub get_by_hash : Text → Tx S (Option Document)
  get_by_hash sha256 s = lift (converted record_to_document (db.document_by_hash sha256 s)) s

  unfoldable pub list_documents : ℕ → ℕ → Tx S (List Document)
  list_documents offset limit s =
      lift (convert_all record_to_document (db.page_of_documents offset limit s)) s

  -- The time is the document's; the column's `onupdate`, which takes the database's time where an
  -- update leaves the column unchanged, is not modelled.
  unfoldable pub save_document : Document → Tx S (Unit {0})
  save_document d s = elim (db.find_document d.id s) [
    | none ↦ err lookup_error
    | some r ↦
        modify
          (db.write_document (record r {
            original_filename = d.original_filename;
            storage_key = d.storage_key;
            media_type = media_type_value d.media_type;
            sha256 = d.sha256;
            size_bytes = d.size_bytes;
            status = document_status_value d.status;
            failure_code = d.failure_code;
            updated_at = d.updated_at;
          }))
          s
  ]

  unfoldable pub delete_document : ℕ → Tx S (Unit {0})
  delete_document id s = elim (db.find_document id s) [
    | none ↦ ok (tt, s)
    | some r ↦ modify (db.drop_document id) s
  ]

  -- SqlAlchemyChunkRepository
  unfoldable pub add_many : List Chunk → Tx S (Unit {0})
  add_many chunks = modify (db.add_chunks (map chunk_to_record chunks))

  unfoldable pub list_chunks : ℕ → Tx S (List Chunk)
  list_chunks document_id s = lift (convert_all record_to_chunk (db.chunks_of document_id s)) s

  unfoldable pub delete_chunks : ℕ → Tx S (Unit {0})
  delete_chunks document_id = modify (db.drop_chunks document_id)

  -- SqlAlchemyIngestionJobRepository
  unfoldable pub add_job : IngestionJob → Tx S (Unit {0})
  add_job j = modify (db.write_job (job_to_record j))

  unfoldable pub get_job : ℕ → Tx S (Option IngestionJob)
  get_job id s = lift (converted record_to_job (db.find_job id s)) s

  unfoldable pub list_jobs : ℕ → Tx S (List IngestionJob)
  list_jobs document_id s = lift (convert_all record_to_job (db.jobs_of document_id s)) s

  unfoldable pub save_job : IngestionJob → Tx S (Unit {0})
  save_job j s = elim (db.find_job j.id s) [
    | none ↦ err lookup_error
    | some r ↦
        modify
          (db.write_job (record r {
            status = job_status_value j.status;
            attempt_count = j.attempt_count;
            failure_code = j.failure_code;
            updated_at = j.updated_at;
            started_at = j.started_at;
            finished_at = j.finished_at;
          }))
          s
  ]

  -- SqlAlchemyCorpusRevisionRepository
  unfoldable pub increment_revision : Tx S ℕ
  increment_revision s = elim (db.revision s) [
    | none ↦ err lookup_error
    | some n ↦ ok (suc n, db.write_revision (suc n) s)
  ]

  unfoldable pub current_revision : Tx S ℕ
  current_revision s = elim (db.revision s) [ none ↦ err lookup_error | some n ↦ ok (n, s) ]
