-- ===== src/Application/Ingestion/Saving.antt =====
-- The repositories' calls on the stored rows of a document and its job.
use enterprise_knowledge_sea.Common.{ℕ, ◌≡◌, Option, some, arith, ap, ◌∙◌}
use enterprise_knowledge_sea.Errors.{Result, ok}
use enterprise_knowledge_sea.Domain.Document.{Document}
use enterprise_knowledge_sea.Domain.Job.{IngestionJob}
use enterprise_knowledge_sea.Persistence.Records.{
  document_to_record, job_to_record, record_to_document, record_to_job,
}
use enterprise_knowledge_sea.Persistence.Records.RoundTrip.{
  record_to_document-document_to_record, record_to_job-job_to_record,
}
use enterprise_knowledge_sea.Persistence.Session.{Database, DatabaseLaws, lift}
use enterprise_knowledge_sea.Persistence.Repositories.{
  get_document, save_document, get_job, save_job, converted,
}
use enterprise_knowledge_sea.Application.Ingestion.Pairs.{
  Pair, Stored, IsConsistent, Replaced, replaced-IsConsistent,
}

-- A pair that may take the place of another: the keys and the times of creation are the same.
pub record Next (d0 : Document) (j0 : IngestionJob) (d : Document) (j : IngestionJob) : Type 0 where
  pub pair : Pair d j
  pub document_id : d.id ≡ d0.id
  pub document_created : d.created_at ≡ d0.created_at
  pub job_id : j.id ≡ j0.id
  pub job_owner : j.document_id ≡ j0.document_id
  pub job_created : j.created_at ≡ j0.created_at

read_back :
    {S R A : Type 0} (f : R → Result A) (o : Option R) {r : R} {a : A} (s : S)
    → o ≡ some r
    → f r ≡ ok a
    → lift (converted f o) s ≡ ok (some a, s)
read_back f o s e e' = cc

module _ {S : Type 0} (db : Database S) (laws : DatabaseLaws db) where
  -- the two writes
  abbrev pub written : Document → IngestionJob → S → S
  written d j s = db.write_job (job_to_record j) (db.write_document (document_to_record d) s)

  pub get_job-Stored :
      (i : ℕ) (d : Document) (j : IngestionJob) (s : S)
      → Stored db i d j s
      → get_job db i s ≡ ok (some j, s)
  unfolding get_job
  get_job-Stored i d j s st =
      read_back record_to_job (db.find_job i s) s st.job_row
        (record_to_job-job_to_record j st.pair.job_valid)

  pub get_document-Stored :
      (i : ℕ) (d : Document) (j : IngestionJob) (s : S)
      → Stored db i d j s
      → get_document db d.id s ≡ ok (some d, s)
  unfolding get_document
  get_document-Stored i d j s st =
      read_back record_to_document (db.find_document d.id s) s st.document_row
        (record_to_document-document_to_record d st.pair.document-IsValid)

  pub save_document_stored :
      (d0 d : Document) (s : S)
      → db.find_document d0.id s ≡ some (document_to_record d0)
      → d.id ≡ d0.id
      → d.created_at ≡ d0.created_at
      → save_document db d s ≡ ok (tt, db.write_document (document_to_record d) s)
  unfolding save_document document_to_record
  save_document_stored d0 d s f e e' = cc

  pub save_job_stored :
      (j0 j : IngestionJob) (s : S)
      → db.find_job j0.id s ≡ some (job_to_record j0)
      → j.id ≡ j0.id
      → j.document_id ≡ j0.document_id
      → j.created_at ≡ j0.created_at
      → save_job db j s ≡ ok (tt, db.write_job (job_to_record j) s)
  unfolding save_job job_to_record
  save_job_stored j0 j s f e e' e'' = cc

  pub written-Replaced :
      (d : Document) (j : IngestionJob) (s : S) → Replaced db d j s (written d j s)
  unfolding document_to_record job_to_record
  written-Replaced d j s = record {
    jobs = λ i. ground (
      arith,
      laws.find_job-write (job_to_record j) i (db.write_document (document_to_record d) s),
      laws.find_job-write_document (document_to_record d) i s,
    );
    documents = λ k. ground (
      arith,
      laws.find_document-write_job (job_to_record j) k (db.write_document (document_to_record d) s),
      laws.find_document-write (document_to_record d) k s,
    );
  }

  -- Where a next pair is written over a stored one, the rows stay consistent.
  pub written-IsConsistent :
      (s : S) (i : ℕ) (d0 d : Document) (j0 j : IngestionJob)
      → IsConsistent db s
      → Stored db i d0 j0 s
      → Next d0 j0 d j
      → IsConsistent db (written d j s)
  written-IsConsistent s i d0 d j0 j c st n =
      replaced-IsConsistent db s (written d j s) c i d0 d j0 j st n.pair n.document_id n.job_id
        (written-Replaced d j s)

  -- The job's row is still there after the document's is written.
  pub save_job_after :
      (i : ℕ) (d0 d : Document) (j0 j : IngestionJob) (s : S)
      → Stored db i d0 j0 s
      → Next d0 j0 d j
      → save_job db j (db.write_document (document_to_record d) s) ≡ ok (tt, written d j s)
  save_job_after i d0 d j0 j s st n =
      save_job_stored j0 j (db.write_document (document_to_record d) s)
        (laws.find_job-write_document (document_to_record d) j0.id s
          ∙ ap (λ k. db.find_job k s) st.key
          ∙ st.job_row)
        n.job_id n.job_owner n.job_created
