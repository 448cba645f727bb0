-- ===== src/Tests/Documents.antt =====
-- A submission and a deletion over a database in memory.
use enterprise_knowledge_sea.Common.{
  arith, ℕ, ◌+◌, suc, ◌≡◌, refl, none, some, codes, pos, strip, blank, is_space, text_eq,
}
use enterprise_knowledge_sea.Status.{
  DocumentStatus, IngestionJobStatus, ready, document_status_eq, document_allowed,
  media_type_of_value, job_status_eq, job_allowed, media_type_value, document_status_of_value,
  document_status_value, job_status_of_value, job_status_value,
}
use enterprise_knowledge_sea.Errors.{ok, err, document_not_found}
use enterprise_knowledge_sea.Domain.Checks.{is_sha256, earlier}
use enterprise_knowledge_sea.Domain.Document
use enterprise_knowledge_sea.Domain.Document.{Document}
use enterprise_knowledge_sea.Domain.Job
use enterprise_knowledge_sea.Domain.Job.{IngestionJob}
use enterprise_knowledge_sea.Persistence.Records.{
  DocumentRecord, document_to_record, job_to_record, record_to_document, record_to_job,
}
use enterprise_knowledge_sea.Persistence.Session.{transaction}
use enterprise_knowledge_sea.Persistence.Memory.{Tables, no_rows, memory, memory_laws}
use enterprise_knowledge_sea.Persistence.Repositories.{
  get_document, get_by_hash, add_document, add_job, save_document, delete_document,
  increment_revision, list_jobs, convert_all,
}
use enterprise_knowledge_sea.Application.Documents.{
  SubmissionPorts, DocumentSubmission, query_document, query_job, begin_deletion, validate_filename,
  validate_media_type, has_control, before_semicolon, suffix, from_last_dot, any_text,
  allowed_extensions, register,
}
use enterprise_knowledge_sea.Application.Documents.ReadBack.{submit-query, delete-query}
use enterprise_knowledge_sea.Application.Documents.Submission.{
  submit, submit_returned, new_submission, register_and_dispatch, dispatch,
}
use enterprise_knowledge_sea.Application.Documents.Deletion.{
  DeletionPorts, delete, clean_up, cancel_all,
}
use enterprise_knowledge_sea.Tests.{at, zeros, document, waiting_job}
use enterprise_knowledge_sea.Tests.Processor.{holding}

-- files and the queue are counted
abbrev ports : SubmissionPorts ℕ ℕ ℕ
ports = record {
  save = λ id media_type source bytes files. (
    ok (record { storage_key = codes "documents/5.md"; sha256 = zeros; size_bytes = pos 40 }),
    suc files,
  );
  delete_file = λ key files. (ok tt, files);
  enqueue = λ id queue. (ok tt, suc queue);
  lower = λ t. t;
  max_upload_bytes = pos 100;
}

abbrev pub fresh : ℕ → ℕ
fresh n = 5 + n

abbrev pub submission : DocumentSubmission
submission = record {
  document = record (document DocumentStatus.queued 1 none) { created_at = at 0 };
  job = record waiting_job { id = 7; created_at = at 2; updated_at = at 2 };
}

submit_test :
    submit memory ports
      (λ s. s)
      at
      fresh
      (codes "notes.md")
      (some (codes "text/markdown; x"))
      0
      no_rows
      0
      0
    ≡ (ok submission, holding submission.document submission.job, 1, 1)
unfolding submit validate_filename has_control validate_media_type before_semicolon suffix
    from_last_dot any_text allowed_extensions new_submission Document.create Document.queue
    Job.create register_and_dispatch register get_by_hash add_document add_job dispatch transaction
    document_to_record record_to_document media_type_of_value media_type_value
    document_status_of_value document_status_value Document.post_init blank strip is_space is_sha256
    earlier document_status_eq text_eq job_to_record record_to_job job_status_of_value
    job_status_value Job.post_init job_status_eq Document.transition document_allowed Job.transition
    job_allowed
submit_test = refl

submit_returned_example :
    (memory.document_by_hash zeros no_rows ≡ none)
    × (memory.find_document 5 (holding submission.document submission.job)
        ≡ some (document_to_record submission.document))
    × (memory.find_job 7 (holding submission.document submission.job)
        ≡ some (job_to_record submission.job))
    × (submission.document.status ≡ DocumentStatus.queued)
    × (submission.job.status ≡ IngestionJobStatus.queued)
    × (submission.job.document_id ≡ fresh 0)
submit_returned_example =
    submit_returned memory memory_laws ports (λ s. s) at fresh (codes "notes.md")
      (some (codes "text/markdown; x")) 0 no_rows (holding submission.document submission.job) 0 1 0
      1 submission submit_test

submit-query_example :
    (query_document memory 5 (holding submission.document submission.job)
      ≡ (ok submission.document, holding submission.document submission.job))
    × (query_job memory 7 (holding submission.document submission.job)
        ≡ (ok submission.job, holding submission.document submission.job))
submit-query_example =
    submit-query memory memory_laws ports (λ s. s) at fresh (codes "notes.md")
      (some (codes "text/markdown; x")) 0 no_rows (holding submission.document submission.job) 0 1 0
      1 submission submit_test refl

abbrev deletion_ports : DeletionPorts ℕ ℕ ℕ
deletion_ports = record {
  cancel = λ id queue. (ok tt, suc queue);
  delete_vectors = λ id vectors. (ok tt, suc vectors);
  delete_file = λ key files. (ok tt, suc files);
}

abbrev kept : Tables
kept = holding (document ready 4 none) waiting_job

delete_test : (delete memory deletion_ports (λ s. s) (at 9) 5 kept 0 0 0).0 ≡ ok tt
unfolding delete clean_up cancel_all begin_deletion get_document Document.mark_deleting
    save_document increment_revision list_jobs convert_all delete_document transaction
    document_to_record record_to_document media_type_of_value media_type_value
    document_status_of_value document_status_value Document.post_init blank strip is_space is_sha256
    earlier document_status_eq text_eq job_to_record record_to_job job_status_of_value
    job_status_value Job.post_init job_status_eq Document.transition document_allowed Job.transition
    job_allowed
delete_test = refl

-- the database without the document
abbrev emptied : Tables
emptied = (delete memory deletion_ports (λ s. s) (at 9) 5 kept 0 0 0).1

kept_keyed : (r : DocumentRecord) → memory.find_document 5 kept ≡ some r → r.id ≡ 5
unfolding document_to_record
kept_keyed r h = ground arith

delete-query_example : query_document memory 5 emptied ≡ (err (document_not_found 5), emptied)
delete-query_example =
    delete-query memory memory_laws deletion_ports (λ s. s) (at 9) 5 kept 0 0 0 kept_keyed
      delete_test refl
