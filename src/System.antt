-- ===== src/System.antt =====
-- The services of knowledge_search/application over one database: DocumentSubmissionService and
-- DocumentDeletionService of documents.py and IngestionJobProcessor of ingestion.py, as the
-- transactions that any number of concurrent runs of them commit, in any order. No two of these
-- transactions overlap: persistence/session.py runs them at READ COMMITTED without locks, where they
-- may, and overlapping ones are outside of the model.
pub mod Rows
pub mod Abouts
pub mod Stages
pub mod Registration
pub mod Effects
pub mod Completion
pub mod Leaving
pub mod Interleavings
use enterprise_knowledge_sea.Common.{ℕ, ◌≡◌, ◌≢◌, Option, none, some, Text, List, ◌∷◌, All, Among}
use enterprise_knowledge_sea.Status.{
  DocumentMediaType, DocumentStatus, processing, ready, deleting, document_status_of_value,
}
use enterprise_knowledge_sea.Errors.{Result, ok, err}
use enterprise_knowledge_sea.Domain.Checks.{Datetime}
use enterprise_knowledge_sea.Domain.Document.{Document}
use enterprise_knowledge_sea.Domain.Chunk.{Chunk}
use enterprise_knowledge_sea.Ingestion.Models.{StoredDocument}
use enterprise_knowledge_sea.Persistence.Session.{Database, transaction}
use enterprise_knowledge_sea.Persistence.Repositories.{delete_document}
use enterprise_knowledge_sea.Application.Documents.{
  DocumentSubmission, register, mark_dispatch_failed, begin_deletion,
}
use enterprise_knowledge_sea.Application.Documents.Submission.{new_submission}
use enterprise_knowledge_sea.Application.Ingestion.{start_job, finish_job, mark_failed}

-- What a client can observe of one document, and how it may change: the abstract view that
-- `status` in the responses of the interface stands for.
pub data Move : Option DocumentStatus → Option DocumentStatus → Type 0 where
  stay : (a : Option DocumentStatus) → Move a a
  submit : Move none (some DocumentStatus.queued)
  begin : Move (some DocumentStatus.queued) (some processing)
  retry : Move (some DocumentStatus.failed) (some processing)
  index : Move (some processing) (some ready)
  reject : Move (some DocumentStatus.queued) (some DocumentStatus.failed)
  fail : Move (some processing) (some DocumentStatus.failed)
  leave_ready : Move (some ready) (some deleting)
  leave_failed : Move (some DocumentStatus.failed) (some deleting)
  drop : Move (some deleting) none

-- The status in a document's row.
unfoldable pub stage : {S : Type 0} → Database S → ℕ → S → Option DocumentStatus
stage db e s = elim (db.find_document e s) [
  | none ↦ none
  | some r ↦ document_status_of_value r.status
]

-- The database, the pairs of a job and its document that some run holds the ids of, and the
-- documents whose deletion has begun.
pub record World (S : Type 0) : Type 0 where
  pub rows : S
  pub held : List (ℕ × ℕ)
  pub leaving : List ℕ

-- Ids that `uuid4` gives: no row has them, and no run holds them.
pub record IsFresh {S : Type 0} (db : Database S) (w : World S) (d j : ℕ) : Type 0 where
  pub no_document : db.find_document d w.rows ≡ none
  pub no_job : db.find_job j w.rows ≡ none
  pub not_held : All (λ p. (j ≢ p.0) × (d ≢ p.1)) w.held
  pub not_leaving : All (λ e. d ≢ e) w.leaving

-- What a transaction's result adds to what the runs hold.
module _ {S : Type 0} where
  abbrev pub registered : DocumentSubmission → World S → Result (Unit {0}) × S → World S
  registered sub w (ok _, t) = record w { rows = t; held = (sub.job.id, sub.document.id) ∷ w.held }
  registered sub w (err e, t) = record w { rows = t }

  abbrev pub started : ℕ → World S → Result (Option ℕ) × S → World S
  started job_id w (ok (some document_id), t) = record w {
    rows = t;
    held = (job_id, document_id) ∷ w.held;
  }
  started job_id w (ok none, t) = record w { rows = t }
  started job_id w (err e, t) = record w { rows = t }

  abbrev pub begun : World S → Result (Document × List ℕ) × S → World S
  begun w (ok (d, ids), t) = record w { rows = t; leaving = d.id ∷ w.leaving }
  begun w (err e, t) = record w { rows = t }

module _ {S : Type 0} (db : Database S) where
  -- the world after `submit` has registered a document and its job
  unfoldable pub register_step : DocumentSubmission → World S → World S
  register_step sub w = registered sub w (transaction db (register db sub.document sub.job) w.rows)

  -- after `_mark_dispatch_failed`
  unfoldable pub dispatch_failed_step : (ℕ → Datetime) → ℕ → ℕ → World S → World S
  dispatch_failed_step clock document_id job_id w = record w {
    rows = (transaction db (mark_dispatch_failed db clock document_id job_id) w.rows).1;
  }

  -- after `_start_job`
  unfoldable pub start_step : (ℕ → Datetime) → ℕ → World S → World S
  start_step clock job_id w = started job_id w (transaction db (start_job db clock job_id) w.rows)

  -- after the second transaction of `process`
  unfoldable pub finish_step : (ℕ → Datetime) → ℕ → ℕ → List Chunk → World S → World S
  finish_step clock document_id job_id chunks w = record w {
    rows = (transaction db (finish_job db clock document_id job_id chunks) w.rows).1;
  }

  -- after `_mark_failed`
  unfoldable pub mark_failed_step : (ℕ → Datetime) → ℕ → ℕ → Text → World S → World S
  mark_failed_step clock document_id job_id code w = record w {
    rows = (transaction db (mark_failed db clock document_id job_id code) w.rows).1;
  }

  -- after the first transaction of `delete`
  unfoldable pub begin_deletion_step : Datetime → ℕ → World S → World S
  begin_deletion_step clock document_id w =
      begun w (transaction db (begin_deletion db clock document_id) w.rows)

  -- after the last transaction of `delete`
  unfoldable pub drop_step : ℕ → World S → World S
  drop_step document_id w = record w {
    rows = (transaction db (delete_document db document_id) w.rows).1;
  }

  -- One transaction of one run. A run uses the ids that it holds.
  pub data Step (w : World S) : World S → Type 0 where
    registers :
        (clock : ℕ → Datetime) (fresh : ℕ → ℕ) (filename : Text) (media_type : DocumentMediaType)
        (stored : StoredDocument) (sub : DocumentSubmission)
        → new_submission clock fresh filename media_type stored ≡ ok sub
        → IsFresh db w sub.document.id sub.job.id
        → Step w (register_step sub w)
    dispatch_fails :
        (clock : ℕ → Datetime) (d j : ℕ)
        → Among (j, d) w.held
        → Step w (dispatch_failed_step clock d j w)
    starts : (clock : ℕ → Datetime) (j : ℕ) → Step w (start_step clock j w)
    finishes :
        (clock : ℕ → Datetime) (d j : ℕ) (chunks : List Chunk)
        → Among (j, d) w.held
        → Step w (finish_step clock d j chunks w)
    fails :
        (clock : ℕ → Datetime) (d j : ℕ) (code : Text)
        → Among (j, d) w.held
        → Step w (mark_failed_step clock d j code w)
    begins_deletion : (clock : Datetime) (d : ℕ) → Step w (begin_deletion_step clock d w)
    drops : (d : ℕ) → Among d w.leaving → Step w (drop_step d w)

  -- The worlds that an interleaving of the transactions of any runs reaches.
  pub data Reach (w : World S) : World S → Type 0 where
    here : Reach w w
    next : {u v : World S} → Reach w u → Step u v → Reach w v
