-- ===== src/Tests/System.antt =====
-- One document that is submitted, started and failed over a database in memory.
use enterprise_knowledge_sea.Common.{
  ℕ, ◌+◌, ◌≡◌, refl, some, codes, [], pos, strip, blank, is_space, text_eq, ◌+ℤ◌,
}
use enterprise_knowledge_sea.Status.{
  markdown, processing, document_status_eq, document_allowed, media_type_of_value, job_status_eq,
  job_allowed, media_type_value, document_status_of_value, document_status_value,
  job_status_of_value, job_status_value,
}
use enterprise_knowledge_sea.Errors.{ok}
use enterprise_knowledge_sea.Domain.Checks.{is_sha256, earlier, Datetime}
use enterprise_knowledge_sea.Domain.Document
use enterprise_knowledge_sea.Domain.Job
use enterprise_knowledge_sea.Ingestion.Models.{StoredDocument}
use enterprise_knowledge_sea.Persistence.Records.{
  document_to_record, job_to_record, record_to_document, record_to_job,
}
use enterprise_knowledge_sea.Persistence.Session.{transaction}
use enterprise_knowledge_sea.Persistence.Memory.{Tables, no_rows, memory, memory_laws}
use enterprise_knowledge_sea.Persistence.Repositories.{
  get_document, get_by_hash, add_document, add_job, save_document, get_job, save_job,
}
use enterprise_knowledge_sea.Application.Documents.{register}
use enterprise_knowledge_sea.Application.Documents.Submission.{new_submission}
use enterprise_knowledge_sea.Application.Ingestion.{
  start_job, start_found, requeue_failed, begin_attempt,
}
use enterprise_knowledge_sea.System.{
  World, IsFresh, Step, registers, starts, here, next, register_step, start_step, stage,
}
use enterprise_knowledge_sea.System.Stages.{Moves}
use enterprise_knowledge_sea.System.Interleavings.{IsSound, Reach-IsSound, Reach-Moves}
use enterprise_knowledge_sea.Tests.{at, zeros}
use enterprise_knowledge_sea.Tests.Documents.{submission, fresh}

abbrev empty_world : World Tables
empty_world = record { rows = no_rows; held = []; leaving = [] }

empty_world-IsSound : IsSound memory memory_laws empty_world
empty_world-IsSound = record {
  consistent = record { backed = λ i r h. cc; alone = λ i k r q h h' e. cc };
  keyed = λ e r h. cc;
  abouts = tt;
  leaves = tt;
}

abbrev stored : StoredDocument
stored = record { storage_key = codes "documents/5.md"; sha256 = zeros; size_bytes = pos 40 }

submission_made : new_submission at fresh (codes "notes.md") markdown stored ≡ ok submission
unfolding new_submission Document.create Document.queue Job.create Document.post_init blank strip
    is_space is_sha256 earlier document_status_eq Job.post_init job_status_eq Document.transition
    document_allowed
submission_made = refl

abbrev registered_world : World Tables
registered_world = register_step memory submission empty_world

registration : Step memory empty_world registered_world
registration =
    registers at fresh (codes "notes.md") markdown stored submission submission_made
      (record { no_document = refl; no_job = refl; not_held = tt; not_leaving = tt })

abbrev later : ℕ → Datetime
later n = at (n + 10)

start : Step memory registered_world (start_step memory later 7 registered_world)
start = starts later 7

started_test : stage memory 5 (start_step memory later 7 registered_world).rows ≡ some processing
unfolding register_step start_step stage transaction register get_by_hash add_document add_job
    start_job start_found requeue_failed begin_attempt get_job get_document save_document save_job
    Document.start_processing Job.start document_to_record record_to_document media_type_of_value
    media_type_value document_status_of_value document_status_value Document.post_init blank strip
    is_space is_sha256 earlier document_status_eq text_eq job_to_record record_to_job
    job_status_of_value job_status_value Job.post_init job_status_eq Document.transition
    document_allowed Job.transition job_allowed ◌+ℤ◌
started_test = refl

Reach-IsSound_example : IsSound memory memory_laws (start_step memory later 7 registered_world)
Reach-IsSound_example =
    Reach-IsSound memory memory_laws empty_world (start_step memory later 7 registered_world)
      empty_world-IsSound (next (next here registration) start)

Reach-Moves_example :
    Moves memory
      (IsFresh memory registered_world)
      registered_world.rows
      (start_step memory later 7 registered_world).rows
Reach-Moves_example =
    Reach-Moves memory memory_laws empty_world registered_world
      (start_step memory later 7 registered_world) empty_world-IsSound (next here registration)
      start
