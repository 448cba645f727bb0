-- ===== src/Application/Ingestion/Outcomes.antt =====
-- What the job processor's transactions do to the job they are for.
use enterprise_knowledge_sea.Common.{ℕ, suc, ◌≡◌, some, ap, ◌∙◌, List, map, All, same_key}
use enterprise_knowledge_sea.Status.{ready, succeeded}
use enterprise_knowledge_sea.Errors.{ok}
use enterprise_knowledge_sea.Domain.Checks.{Datetime}
use enterprise_knowledge_sea.Domain.Document.{Document}
use enterprise_knowledge_sea.Domain.Job.{IngestionJob}
use enterprise_knowledge_sea.Domain.Chunk.{Chunk}
use enterprise_knowledge_sea.Persistence.Records.{
  chunk_to_record, document_to_record, job_to_record,
}
use enterprise_knowledge_sea.Persistence.Session.{Database, DatabaseLaws, AreNumbered}
use enterprise_knowledge_sea.Application.Ingestion.{finish_job}
use enterprise_knowledge_sea.Application.Ingestion.Pairs.{Stored}
use enterprise_knowledge_sea.Application.Ingestion.Finish.{Finished, finish_job_returned, replaced}
use enterprise_knowledge_sea.Application.Ingestion.Saving.{written-Replaced}

module _ {S : Type 0} (db : Database S) (laws : DatabaseLaws db) (clock : ℕ → Datetime) (i : ℕ)
    (d : Document) (j : IngestionJob) (s : S) (st : Stored db i d j s) where
  finished_document :
      (chunks : List Chunk) (t : S) (f : Finished db laws d j chunks s t)
      → db.find_document d.id t ≡ some (document_to_record f.document)
  finished_document chunks t f =
      ap (db.find_document d.id) f.state
      ∙ laws.find_document-write_revision _ _ _
      ∙ (written-Replaced db laws f.document f.job (replaced db laws d.id chunks s)).documents d.id
      ∙ same_key f.document.id d.id (some (document_to_record f.document)) _ f.next.document_id

  finished_job :
      (chunks : List Chunk) (t : S) (f : Finished db laws d j chunks s t)
      → db.find_job i t ≡ some (job_to_record f.job)
  finished_job chunks t f =
      ap (db.find_job i) f.state
      ∙ laws.find_job-write_revision _ _ _
      ∙ (written-Replaced db laws f.document f.job (replaced db laws d.id chunks s)).jobs i
      ∙ same_key f.job.id i (some (job_to_record f.job)) _ (f.next.job_id ∙ st.key)

  -- The second transaction of a successful run replaces the document's chunks by the new ones, and
  -- adds one to the corpus revision, where the chunks are the document's and numbered from 0.
  pub finish_job_writes :
      (chunks : List Chunk) (t : S)
      → All (λ r. r.document_id ≡ d.id) (map chunk_to_record chunks)
      → AreNumbered 0 (map chunk_to_record chunks)
      → finish_job db clock d.id i chunks s ≡ ok (tt, t)
      → (db.chunks_of d.id t ≡ map chunk_to_record chunks)
        × ((n : ℕ) × (db.revision s ≡ some n) × (db.revision t ≡ some (suc n)))
        × ((d' : Document) × (db.find_document d.id t ≡ some (document_to_record d'))
            × (d'.status ≡ ready))
        × ((j' : IngestionJob) × (db.find_job i t ≡ some (job_to_record j'))
            × (j'.status ≡ succeeded))
  finish_job_writes chunks t a n h =
      let f = finish_job_returned db laws clock i chunks s d j t st h in
      (
        ap (db.chunks_of d.id) f.state
            ∙ laws.chunks_of-write_revision _ _ _
            ∙ laws.chunks_of-write_job _ _ _
            ∙ laws.chunks_of-write_document _ _ _
            ∙ laws.chunks_of-replace d.id (map chunk_to_record chunks) s a n,
        (f.before, f.revision, ap db.revision f.state ∙ laws.revision-write _ _),
        (f.document, finished_document chunks t f, f.document_status),
        (f.job, finished_job chunks t f, f.job_status),
      )
