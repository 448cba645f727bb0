-- ===== src/Tests/Processor.antt =====
-- The job processor over a database in memory that holds one document and its job.
use enterprise_knowledge_sea.Common.{
  ℕ, suc, ◌≡◌, refl, inl, inr, none, some, codes, List, [], ◌∷◌, map, ◌==◌, arith, pos, Bool-cases,
  sym, subst, blank, strip, is_space, text_eq,
}
use enterprise_knowledge_sea.Status.{
  DocumentStatus, processing, ready, succeeded, document_status_eq, document_allowed, job_status_eq,
  job_allowed, media_type_of_value, media_type_value, document_status_of_value,
  document_status_value, job_status_of_value, job_status_value,
}
use enterprise_knowledge_sea.Errors.{ok}
use enterprise_knowledge_sea.Domain.Checks.{is_sha256, earlier}
use enterprise_knowledge_sea.Domain.Document
use enterprise_knowledge_sea.Domain.Document.{Document}
use enterprise_knowledge_sea.Domain.Job
use enterprise_knowledge_sea.Domain.Job.{IngestionJob}
use enterprise_knowledge_sea.Domain.Chunk.{Chunk}
use enterprise_knowledge_sea.Persistence.Records.{
  document_to_record, job_to_record, chunk_to_record, IngestionJobRecord, ChunkRecord,
  record_to_document, record_to_job,
}
use enterprise_knowledge_sea.Persistence.Repositories.{
  get_document, get_job, delete_chunks, add_many, save_document, save_job, increment_revision,
}
use enterprise_knowledge_sea.Persistence.Memory.{Tables, no_rows, memory, memory_laws}
use enterprise_knowledge_sea.Application.Ingestion.{Ports, Interference, process, finish_job}
use enterprise_knowledge_sea.Application.Ingestion.Pairs.{
  waiting, working, Pair, Stored, IsConsistent,
}
use enterprise_knowledge_sea.Application.Ingestion.Run.{AreCareful, process-IsConsistent}
use enterprise_knowledge_sea.Application.Ingestion.Outcomes.{finish_job_writes}
use enterprise_knowledge_sea.Tests.{
  at, zeros, document, document-IsValid, waiting_job, waiting_job-IsValid, running_job,
  running_job-IsValid,
}

abbrev pub holding : Document → IngestionJob → Tables
holding d j =
    memory.write_job (job_to_record j) (memory.write_document (document_to_record d) no_rows)

abbrev queued_document : Document
queued_document = document DocumentStatus.queued 2 none

abbrev pub processing_document : Document
processing_document = document processing 3 none

queued-Pair : Pair queued_document waiting_job
unfolding document_status_eq
queued-Pair = record {
  document-IsValid = document-IsValid DocumentStatus.queued 2 refl (omega arith);
  job_valid = waiting_job-IsValid;
  owner = refl;
  paired = waiting;
}

processing-Pair : Pair processing_document running_job
unfolding document_status_eq
processing-Pair = record {
  document-IsValid = document-IsValid processing 3 refl (omega arith);
  job_valid = running_job-IsValid;
  owner = refl;
  paired = working;
}

-- the one job is the one with the id 6
only_row :
    (i : ℕ) (r : IngestionJobRecord)
    → memory.find_job i (holding queued_document waiting_job) ≡ some r
    → (i ≡ 6) × (r ≡ job_to_record waiting_job)
unfolding job_to_record
only_row i r h = elim (Bool-cases (6 == i)) [ inl e ↦ ground arith | inr e ↦ ground arith ]

queued-Stored : Stored memory 6 queued_document waiting_job (holding queued_document waiting_job)
unfolding job_to_record document_to_record
queued-Stored = record { pair = queued-Pair; key = refl; job_row = refl; document_row = refl }

pub processing-Stored :
    Stored memory 6 processing_document running_job (holding processing_document running_job)
unfolding job_to_record document_to_record
processing-Stored = record {
  pair = processing-Pair;
  key = refl;
  job_row = refl;
  document_row = refl;
}

holding-IsConsistent : IsConsistent memory (holding queued_document waiting_job)
holding-IsConsistent = record {
  backed = λ i r h.
      let (e, f) = only_row i r h in
      (
        queued_document,
        waiting_job,
        f,
        subst
            (λ k. Stored memory k queued_document waiting_job (holding queued_document waiting_job))
            (sym e) queued-Stored,
      );
  alone = λ i k r q h h' same.
      let (e, _) = only_row i r h in let (e', _) = only_row k q h' in ground arith;
}

abbrev pub chunk : Chunk
chunk = record {
  id = 7;
  document_id = 5;
  ordinal = pos 0;
  text = codes "one two";
  token_count = pos 2;
  content_hash = zeros;
  locator = record { section_path = []; page_number = none; char_start = pos 0; char_end = pos 7 };
}

abbrev ports : Ports ℕ ℕ
ports = record {
  open_and_prepare = λ d. ok (chunk ∷ []);
  embed_documents = λ texts. ok (1 ∷ []);
  dimensions = 1;
  ensure_collection = λ n v. (ok tt, v);
  upsert = λ d chunks vectors v. (ok tt, suc v);
  delete_document = λ d v. (ok tt, v);
}

abbrev undisturbed : Interference Tables
undisturbed = record { before_load = λ s. s; before_finish = λ s. s; before_mark = λ s. s }

careful : AreCareful memory memory_laws ports undisturbed at 6
careful = record { load = λ e s k. k; finish = λ e s k. k; mark = λ e s k. k }

process-IsConsistent_example :
    IsConsistent memory
      (process memory ports undisturbed at 6 (holding queued_document waiting_job) 0).1
process-IsConsistent_example =
    process-IsConsistent memory memory_laws ports undisturbed at 6 careful
      (holding queued_document waiting_job) 0 holding-IsConsistent

abbrev ready_document : Document
ready_document = document ready 4 none

abbrev succeeded_job : IngestionJob
succeeded_job = record running_job {
  status = succeeded;
  updated_at = at 5;
  finished_at = some (at 5);
}

abbrev chunk_rows : List ChunkRecord
chunk_rows = map chunk_to_record (chunk ∷ [])

abbrev finished : Tables
finished = memory.write_revision 1 (
    memory.write_job (job_to_record succeeded_job) (
      memory.write_document (document_to_record ready_document) (
        memory.add_chunks chunk_rows
          (memory.drop_chunks 5 (holding processing_document running_job)))))

finish_test :
    finish_job memory at 5 6 (chunk ∷ []) (holding processing_document running_job)
    ≡ ok (tt, finished)
unfolding finish_job get_document get_job delete_chunks add_many chunk_to_record Document.mark_ready
    save_document Job.succeed save_job increment_revision document_to_record record_to_document
    media_type_of_value media_type_value document_status_of_value document_status_value
    Document.post_init blank strip is_space is_sha256 earlier document_status_eq text_eq
    job_to_record record_to_job job_status_of_value job_status_value Job.post_init job_status_eq
    Document.transition document_allowed Job.transition job_allowed
finish_test = refl

finish_job_writes_example :
    (memory.chunks_of 5 finished ≡ chunk_rows)
    × ((n : ℕ) × (memory.revision (holding processing_document running_job) ≡ some n)
        × (memory.revision finished ≡ some (suc n)))
    × ((d : Document) × (memory.find_document 5 finished ≡ some (document_to_record d))
        × (d.status ≡ ready))
    × ((j : IngestionJob) × (memory.find_job 6 finished ≡ some (job_to_record j))
        × (j.status ≡ succeeded))
unfolding chunk_to_record
finish_job_writes_example =
    finish_job_writes memory memory_laws at 6 processing_document running_job
      (holding processing_document running_job) processing-Stored (chunk ∷ []) finished (refl, tt)
      (refl, tt) finish_test
