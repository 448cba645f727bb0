-- ===== src/Application/Documents/Deletion.antt =====
-- class DocumentDeletionService of knowledge_search/application/documents.py.
use enterprise_knowledge_sea.Common.{
  ℕ, ◌≡◌, inl, inr, none, Text, List, [], ◌∷◌, arith, Option-cases,
}
use enterprise_knowledge_sea.Errors.{
  Error, Result, ok, err, queue_dispatch, cleanup_error, vector_index_error, os_error,
  file_exists_error, Result-cases,
}
use enterprise_knowledge_sea.Domain.Checks.{Datetime}
use enterprise_knowledge_sea.Domain.Document.{Document}
use enterprise_knowledge_sea.Persistence.Session.{
  Database, DatabaseLaws, transaction, transaction_committed,
}
use enterprise_knowledge_sea.Persistence.Repositories.{delete_document}
use enterprise_knowledge_sea.Application.Documents.{begin_deletion}

-- The queue, the vector index and the document store, each over a state of its own.
pub record DeletionPorts (Files Queue Vectors : Type 0) : Type 0 where
  pub cancel : ℕ → Queue → Result (Unit {0}) × Queue
  pub delete_vectors : ℕ → Vectors → Result (Unit {0}) × Vectors
  pub delete_file : Text → Files → Result (Unit {0}) × Files

-- `raise DocumentCleanupError(...) from error`, for the exceptions that the three `try` catch
abbrev pub queue_cleanup : Error → Error
queue_cleanup (queue_dispatch d j) = cleanup_error
queue_cleanup e = e

abbrev pub vector_cleanup : Error → Error
vector_cleanup vector_index_error = cleanup_error
vector_cleanup e = e

abbrev pub file_cleanup : Error → Error
file_cleanup os_error = cleanup_error
file_cleanup file_exists_error = cleanup_error
file_cleanup e = e

module _ {S Files Queue Vectors : Type 0} (db : Database S)
    (ports : DeletionPorts Files Queue Vectors) (others : S → S) where
  -- `for job_id in job_ids: self._queue.cancel(job_id)`
  unfoldable pub cancel_all : List ℕ → Queue → Result (Unit {0}) × Queue
  cancel_all [] queue = (ok tt, queue)
  cancel_all (job_id ∷ more) queue =
      let (cancelled, queue') = ports.cancel job_id queue in
      let rest = cancel_all more queue' in elim cancelled [ err e ↦ (err e, queue') | ok _ ↦ rest ]

  -- the clean-up outside the database, and the last transaction
  unfoldable pub clean_up :
      Document
      → List ℕ
      → S
      → Files
      → Queue
      → Vectors
      → Result (Unit {0}) × S × Files × Queue × Vectors
  clean_up document job_ids s files queue vectors =
      let (cancelled, queue') = cancel_all job_ids queue in
      let (unindexed, vectors') = ports.delete_vectors document.id vectors in
      let (removed, files') = ports.delete_file document.storage_key files in
      let (dropped, t) = transaction db (delete_document db document.id) (others s) in
      elim cancelled [
        | err e ↦ (err (queue_cleanup e), s, files, queue', vectors)
        | ok _ ↦ elim unindexed [
          | err e ↦ (err (vector_cleanup e), s, files, queue', vectors')
          | ok _ ↦ elim removed [
            | err e ↦ (err (file_cleanup e), s, files', queue', vectors')
            | ok _ ↦ (dropped, t, files', queue', vectors')
          ]
        ]
      ]

  -- `delete`
  unfoldable pub delete :
      Datetime → ℕ → S → Files → Queue → Vectors → Result (Unit {0}) × S × Files × Queue × Vectors
  delete clock document_id s files queue vectors =
      let (begun, t) = transaction db (begin_deletion db clock document_id) s in
      elim begun [
        | err e ↦ (err e, t, files, queue, vectors)
        | ok (document, job_ids) ↦ clean_up document job_ids t files queue vectors
      ]

module _ {S Files Queue Vectors : Type 0} (db : Database S) (laws : DatabaseLaws db)
    (ports : DeletionPorts Files Queue Vectors) (others : S → S) where
  dropped : (d : ℕ) (s t : S) → delete_document db d s ≡ ok (tt, t) → db.find_document d t ≡ none
  unfolding delete_document
  dropped d s t h = elim (Option-cases (db.find_document d s)) [
    | inl e ↦ ground arith
    | inr (r, e) ↦ ground (arith, laws.find_document-drop d d s)
  ]

  cleaned :
      (d : Document) (ids : List ℕ) (s : S) (files : Files) (queue : Queue) (vectors : Vectors)
      → (clean_up db ports others d ids s files queue vectors).0 ≡ ok tt
      → transaction db (delete_document db d.id) (others s)
        ≡ (ok tt, (clean_up db ports others d ids s files queue vectors).1)
  unfolding clean_up
  cleaned d ids s files queue vectors h = ground arith

  -- Over a database that meets the laws, a deletion that returns has begun with a document in its
  -- first transaction, and no row of that document is left, whatever the other sessions committed
  -- before the last transaction.
  pub delete_gone :
      (clock : Datetime) (document_id : ℕ) (s : S) (files : Files) (queue : Queue)
      (vectors : Vectors)
      → (delete db ports others clock document_id s files queue vectors).0 ≡ ok tt
      → (d : Document) × (ids : List ℕ) × ((transaction db
            (begin_deletion db clock document_id)
            s).0
          ≡ ok (d, ids))
        × (db.find_document d.id (delete db ports others clock document_id s files queue vectors).1
            ≡ none)
  unfolding delete
  delete_gone clock document_id s files queue vectors h =
      let t = (transaction db (begin_deletion db clock document_id) s).1 in
      elim (Result-cases (transaction db (begin_deletion db clock document_id) s).0) [
        | inr (e, f) ↦ ground arith
        | inl ((d, ids), f) ↦
            let e : (clean_up db ports others d ids t files queue vectors).0 ≡ ok tt =
              ground arith in
            let u = (clean_up db ports others d ids t files queue vectors).1 in
            let gone = dropped d.id (others t) u (
              transaction_committed db (delete_document db d.id) (others t) u tt
                (cleaned d ids t files queue vectors e)) in
            (d, ids, f, ground arith)
      ]
