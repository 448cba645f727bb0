-- ===== src/Application/Ingestion/Steps.antt =====
-- One method call on a document and one on its job, taken together.
use enterprise_knowledge_sea.Common.{
  true, ◌≡◌, refl, none, some, Text, arith, sym, ap, ◌∙◌, ◌+ℤ◌, pos,
}
use enterprise_knowledge_sea.Status.{
  DocumentStatus, IngestionJobStatus, ready, processing, running, succeeded, document_allowed,
}
use enterprise_knowledge_sea.Errors.{ok}
use enterprise_knowledge_sea.Domain.Checks.{Datetime}
use enterprise_knowledge_sea.Domain.Document.{
  Document, start_processing, queue, mark_ready, mark_failed,
}
use enterprise_knowledge_sea.Domain.Document.Lifecycle as DocumentLifecycle
use enterprise_knowledge_sea.Domain.Job.{IngestionJob, start, succeed, fail, requeue}
use enterprise_knowledge_sea.Domain.Job.Lifecycle as JobLifecycle
use enterprise_knowledge_sea.Application.Ingestion.Pairs.{
  Paired, waiting, working, indexed, broken, Pair,
}
use enterprise_knowledge_sea.Application.Ingestion.Saving.{Next}

-- What `Document` methods return, from `transition_returned`.
abbrev pub Moved : Document → Document → DocumentStatus → Type 0
Moved d d' target =
    (document_allowed d.status target ≡ true)
    × (d'.status ≡ target)
    × (d'.id ≡ d.id)
    × (d'.created_at ≡ d.created_at)
    × DocumentLifecycle.IsValid d'

module _ (clock : Datetime) (d d' : Document) (v : DocumentLifecycle.IsValid d) where
  start_processing_returned : start_processing none clock d ≡ ok d' → Moved d d' processing
  unfolding start_processing
  start_processing_returned h =
      let (p, e, w) = DocumentLifecycle.transition_returned processing none none clock d v d' h in
      (p.allowed, ap (λ k. k.status) e, ap (λ k. k.id) e, ap (λ k. k.created_at) e, w)

  queue_returned : queue none clock d ≡ ok d' → Moved d d' DocumentStatus.queued
  unfolding queue
  queue_returned h =
      let (p, e, w) =
        DocumentLifecycle.transition_returned DocumentStatus.queued none none clock d v d' h in
      (p.allowed, ap (λ k. k.status) e, ap (λ k. k.id) e, ap (λ k. k.created_at) e, w)

  pub mark_ready_returned : mark_ready none clock d ≡ ok d' → Moved d d' ready
  unfolding mark_ready
  mark_ready_returned h =
      let (p, e, w) = DocumentLifecycle.transition_returned ready none none clock d v d' h in
      (p.allowed, ap (λ k. k.status) e, ap (λ k. k.id) e, ap (λ k. k.created_at) e, w)

  pub mark_failed_returned :
      (code : Text)
      → mark_failed code none clock d ≡ ok d'
      → Moved d d' DocumentStatus.failed × (d'.failure_code ≡ some code)
  unfolding mark_failed
  mark_failed_returned code h = ground (
    arith,
    DocumentLifecycle.transition_returned DocumentStatus.failed none (some code) clock d v d',
  )

Paired-as :
    (d : Document) (j : IngestionJob) (a : DocumentStatus) (b : IngestionJobStatus)
    → d.status ≡ a
    → j.status ≡ b
    → Paired a b
    → Paired d.status j.status
Paired-as d j a b e f p = rw (e, f) p

module _ (c c' : Datetime) (d d' : Document) (j j' : IngestionJob) (p : Pair d j) where
  Next-of :
      (a : DocumentStatus) (b : IngestionJobStatus)
      → Paired a b
      → Moved d d' a
      → j'.status ≡ b
      → JobLifecycle.IsValid j'
      → JobLifecycle.SameJob j j'
      → Next d j d' j'
  Next-of a b q (_, st, id, cr, w) st' w' same = record {
    pair = record {
      document-IsValid = w;
      job_valid = w';
      owner = same.document_id ∙ p.owner ∙ sym id;
      paired = Paired-as d' j' a b st st' q;
    };
    document_id = id;
    document_created = cr;
    job_id = same.id;
    job_owner = same.document_id;
    job_created = same.created_at;
  }

  pub start_both :
      start_processing none c d ≡ ok d'
      → start none c' j ≡ ok j'
      → Next d j d' j'
        × (d'.status ≡ processing)
        × (j'.status ≡ running)
        × (j'.attempt_count ≡ j.attempt_count +ℤ pos 1)
  start_both h h' =
      let m = start_processing_returned c d d' p.document-IsValid h in
      let (_, st, n, w, same) = JobLifecycle.start_returned none c' j j' p.job_valid h' in
      (Next-of processing running working m st w same, m.1, st, n)

  pub requeue_both :
      requeue none c' j ≡ ok j'
      → queue none c d ≡ ok d'
      → Next d j d' j' × (j'.attempt_count ≡ j.attempt_count)
  requeue_both h' h =
      let m = queue_returned c d d' p.document-IsValid h in
      let (_, st, n, w, same) = JobLifecycle.requeue_returned none c' j j' p.job_valid h' in
      (Next-of DocumentStatus.queued IngestionJobStatus.queued waiting m st w same, n)

  pub finish_both :
      mark_ready none c d ≡ ok d'
      → succeed none c' j ≡ ok j'
      → Next d j d' j' × (d'.status ≡ ready) × (j'.status ≡ succeeded)
  finish_both h h' =
      let m = mark_ready_returned c d d' p.document-IsValid h in
      let (_, st, n, w, same) = JobLifecycle.succeed_returned none c' j j' p.job_valid h' in
      (Next-of ready succeeded indexed m st w same, m.1, st)

  pub fail_both :
      (code : Text)
      → mark_failed code none c d ≡ ok d'
      → fail code none c' j ≡ ok j'
      → Next d j d' j'
        × (d'.status ≡ DocumentStatus.failed)
        × (d'.failure_code ≡ some code)
        × (j'.failure_code ≡ some code)
  fail_both code h h' =
      let (m, f) = mark_failed_returned c d d' p.document-IsValid code h in
      let (_, st, f', n, w, same) = JobLifecycle.fail_returned none c' j j' p.job_valid code h' in
      (Next-of DocumentStatus.failed IngestionJobStatus.failed broken m st w same, m.1, f, f')

pub Next-trans :
    (d d' d'' : Document) (j j' j'' : IngestionJob)
    → Next d j d' j'
    → Next d' j' d'' j''
    → Next d j d'' j''
Next-trans d d' d'' j j' j'' n m = record {
  pair = m.pair;
  document_id = m.document_id ∙ n.document_id;
  document_created = m.document_created ∙ n.document_created;
  job_id = m.job_id ∙ n.job_id;
  job_owner = m.job_owner ∙ n.job_owner;
  job_created = m.job_created ∙ n.job_created;
}

pub Next-refl : (d : Document) (j : IngestionJob) → Pair d j → Next d j d j
Next-refl d j p = record {
  pair = p;
  document_id = refl;
  document_created = refl;
  job_id = refl;
  job_owner = refl;
  job_created = refl;
}
