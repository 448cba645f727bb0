-- ===== src/Application/Ingestion/Finish.antt =====
-- The transaction that ends a successful attempt, and the one that records a failure.
use enterprise_knowledge_sea.Common.{
  ℕ, suc, true, false, ◌≡◌, refl, none, some, Text, ◌⊎◌, inl, inr, arith, ◌∙◌, List, map,
  Option-cases,
}
use enterprise_knowledge_sea.Status.{
  DocumentStatus, IngestionJobStatus, ready, processing, running, succeeded, document_status_eq,
  document_allowed, job_status_eq,
}
use enterprise_knowledge_sea.Errors.{ok, Result-cases}
use enterprise_knowledge_sea.Domain.Checks.{Datetime}
use enterprise_knowledge_sea.Domain.Document.{Document, mark_ready, mark_failed}
use enterprise_knowledge_sea.Domain.Job.{IngestionJob, succeed, fail}
use enterprise_knowledge_sea.Domain.Chunk.{Chunk}
use enterprise_knowledge_sea.Application.Ingestion.{finish_job, fail_document, fail_job}
use enterprise_knowledge_sea.Application.Ingestion as Ingestion
use enterprise_knowledge_sea.Persistence.Records.{document_to_record, chunk_to_record}
use enterprise_knowledge_sea.Persistence.Session.{Database, DatabaseLaws}
use enterprise_knowledge_sea.Persistence.Repositories.{
  save_document, save_job, get_document, get_job, increment_revision, delete_chunks, add_many,
}
use enterprise_knowledge_sea.Application.Ingestion.Pairs.{
  Paired, waiting, working, indexed, broken, leaving_indexed, leaving_broken, Stored,
}
use enterprise_knowledge_sea.Application.Ingestion.Saving.{
  Next, written, get_job-Stored, get_document-Stored, save_document_stored, save_job_after,
}
use enterprise_knowledge_sea.Application.Ingestion.Steps.{finish_both, fail_both}
use enterprise_knowledge_sea.Application.Ingestion.Steps as Steps

-- Both are at work, or neither is.
working_or_not :
    (a : DocumentStatus) (b : IngestionJobStatus)
    → Paired a b
    → ((a ≡ processing) × (b ≡ running))
      ⊎ ((document_status_eq a processing ≡ false) × (job_status_eq b running ≡ false))
unfolding document_status_eq job_status_eq
working_or_not a b waiting = inr (refl, refl)
working_or_not a b working = inl (refl, refl)
working_or_not a b indexed = inr (refl, refl)
working_or_not a b broken = inr (refl, refl)
working_or_not a b leaving_indexed = inr (refl, refl)
working_or_not a b leaving_broken = inr (refl, refl)

module _ {S : Type 0} (db : Database S) (laws : DatabaseLaws db) where
  -- the state after the chunks are replaced
  abbrev pub replaced : ℕ → List Chunk → S → S
  replaced e chunks s = db.add_chunks (map chunk_to_record chunks) (db.drop_chunks e s)

  -- What a successful attempt has written.
  pub record Finished (d : Document) (j : IngestionJob) (chunks : List Chunk) (s t : S)
      : Type 0 where
    pub document : Document
    pub job : IngestionJob
    pub next : Next d j document job
    pub document_status : document.status ≡ ready
    pub job_status : job.status ≡ succeeded
    pub allowed : document_allowed d.status ready ≡ true
    pub before : ℕ
    pub revision : db.revision s ≡ some before
    pub state :
        t ≡ db.write_revision (suc before) (written db laws document job (replaced d.id chunks s))

  -- What a recorded failure has written.
  pub record Failed (d : Document) (j : IngestionJob) (code : Text) (s t : S) : Type 0 where
    pub document : Document
    pub job : IngestionJob
    pub next : Next d j document job
    pub document_status : document.status ≡ DocumentStatus.failed
    pub was_processing : d.status ≡ processing
    pub document_code : document.failure_code ≡ some code
    pub job_code : job.failure_code ≡ some code
    pub state : t ≡ written db laws document job s

  pub replaced-Stored :
      (i : ℕ) (d : Document) (j : IngestionJob) (chunks : List Chunk) (s : S) (e : ℕ)
      → Stored db i d j s
      → Stored db i d j (replaced e chunks s)
  replaced-Stored i d j chunks s e st = record {
    pair = st.pair;
    key = st.key;
    job_row =
        laws.find_job-add_chunks (map chunk_to_record chunks) i (db.drop_chunks e s)
        ∙ laws.find_job-drop_chunks e i s
        ∙ st.job_row;
    document_row =
        laws.find_document-add_chunks (map chunk_to_record chunks) d.id (db.drop_chunks e s)
        ∙ laws.find_document-drop_chunks e d.id s
        ∙ st.document_row;
  }

  revision-written :
      (d d' : Document) (j' : IngestionJob) (chunks : List Chunk) (s : S)
      → db.revision (written db laws d' j' (replaced d.id chunks s)) ≡ db.revision s
  revision-written d d' j' chunks s =
      laws.revision-write_job _ _
      ∙ laws.revision-write_document _ _
      ∙ laws.revision-add_chunks _ _
      ∙ laws.revision-drop_chunks d.id s

  module _ (clock : ℕ → Datetime) (i : ℕ) (chunks : List Chunk) (s : S) where
    finished_state :
        (d d' : Document) (j j' : IngestionJob) (t : S)
        → finish_job db clock d.id i chunks s ≡ ok (tt, t)
        → get_document db d.id s ≡ ok (some d, s)
        → get_job db i s ≡ ok (some j, s)
        → mark_ready none (clock 4) d ≡ ok d'
        → succeed none (clock 5) j ≡ ok j'
        → save_document db d' (replaced d.id chunks s)
          ≡ ok (tt, db.write_document (document_to_record d') (replaced d.id chunks s))
        → save_job db j' (db.write_document (document_to_record d') (replaced d.id chunks s))
          ≡ ok (tt, written db laws d' j' (replaced d.id chunks s))
        → db.revision (written db laws d' j' (replaced d.id chunks s)) ≡ db.revision s
        → (n : ℕ) × (db.revision s ≡ some n)
          × (t ≡ db.write_revision (suc n) (written db laws d' j' (replaced d.id chunks s)))
    unfolding finish_job delete_chunks add_many increment_revision
    finished_state d d' j j' t h a b f g e1 e2 e3 = elim (Option-cases (db.revision s)) [
      | inl none_there ↦ ground arith
      | inr (n, there) ↦ (n, there, ground arith)
    ]

    finished :
        (d d' : Document) (j j' : IngestionJob) (t : S)
        → Stored db i d j s
        → finish_job db clock d.id i chunks s ≡ ok (tt, t)
        → mark_ready none (clock 4) d ≡ ok d'
        → succeed none (clock 5) j ≡ ok j'
        → Finished d j chunks s t
    finished d d' j j' t st h f g =
        let mid = replaced-Stored i d j chunks s d.id st in
        let (m, a, b) = finish_both (clock 4) (clock 5) d d' j j' st.pair f g in
        let (n, e, e') =
          finished_state d d' j j' t h (get_document-Stored db laws i d j s st)
            (get_job-Stored db laws i d j s st) f g
            (save_document_stored db laws d d' (replaced d.id chunks s) mid.document_row
              m.document_id m.document_created)
            (save_job_after db laws i d d' j j' (replaced d.id chunks s) mid m)
            (revision-written d d' j' chunks s) in
        record {
          document = d';
          job = j';
          next = m;
          document_status = a;
          job_status = b;
          allowed = (Steps.mark_ready_returned (clock 4) d d' st.pair.document-IsValid f).0;
          before = n;
          revision = e;
          state = e';
        }

    pub finish_job_returned :
        (d : Document) (j : IngestionJob) (t : S)
        → Stored db i d j s
        → finish_job db clock d.id i chunks s ≡ ok (tt, t)
        → Finished d j chunks s t
    unfolding finish_job delete_chunks add_many
    finish_job_returned d j t st h =
        let a = get_document-Stored db laws i d j s st in
        let b = get_job-Stored db laws i d j s st in
        elim (Result-cases (mark_ready none (clock 4) d)) [
          | inr (x, f) ↦ ground arith
          | inl (d', f) ↦ elim (Result-cases (succeed none (clock 5) j)) [
            | inr (x, g) ↦ ground arith
            | inl (j', g) ↦ finished d d' j j' t st h f g
          ]
        ]

    failed_state :
        (d d' : Document) (j j' : IngestionJob) (code : Text) (t : S)
        → Ingestion.mark_failed db clock d.id i code s ≡ ok (tt, t)
        → get_document db d.id s ≡ ok (some d, s)
        → get_job db i s ≡ ok (some j, s)
        → d.status ≡ processing
        → j.status ≡ running
        → mark_failed code none (clock 6) d ≡ ok d'
        → fail code none (clock 7) j ≡ ok j'
        → save_document db d' s ≡ ok (tt, db.write_document (document_to_record d') s)
        → save_job db j' (db.write_document (document_to_record d') s)
          ≡ ok (tt, written db laws d' j' s)
        → t ≡ written db laws d' j' s
    unfolding Ingestion.mark_failed fail_document fail_job document_status_eq job_status_eq
    failed_state d d' j j' code t h a b e e' f g e1 e2 = ground arith

    untouched_state :
        (d : Document) (j : IngestionJob) (code : Text) (t : S)
        → Ingestion.mark_failed db clock d.id i code s ≡ ok (tt, t)
        → get_document db d.id s ≡ ok (some d, s)
        → get_job db i s ≡ ok (some j, s)
        → Paired d.status j.status
        → (t ≡ s) ⊎ ((d.status ≡ processing) × (j.status ≡ running))
    unfolding Ingestion.mark_failed fail_document fail_job document_status_eq job_status_eq
    untouched_state d j code t h a b p = elim (working_or_not d.status j.status p) [
      | inl both ↦ inr both
      | inr (e, f) ↦ inl (ground arith)
    ]

    pub mark_failed_returned :
        (d : Document) (j : IngestionJob) (code : Text) (t : S)
        → Stored db i d j s
        → Ingestion.mark_failed db clock d.id i code s ≡ ok (tt, t)
        → (t ≡ s) ⊎ Failed d j code s t
    unfolding Ingestion.mark_failed fail_document fail_job document_status_eq job_status_eq
    mark_failed_returned d j code t st h =
        let a = get_document-Stored db laws i d j s st in
        let b = get_job-Stored db laws i d j s st in
        elim (untouched_state d j code t h a b st.pair.paired) [
          | inl same ↦ inl same
          | inr (e, e') ↦ elim (Result-cases (mark_failed code none (clock 6) d)) [
            | inr (x, f) ↦ inl (ground arith)
            | inl (d', f) ↦ elim (Result-cases (fail code none (clock 7) j)) [
              | inr (x, g) ↦ inl (ground arith)
              | inl (j', g) ↦
                  let (m, k, l, l') = fail_both (clock 6) (clock 7) d d' j j' st.pair code f g in
                  inr (record {
                    document = d';
                    job = j';
                    next = m;
                    document_status = k;
                    was_processing = e;
                    document_code = l;
                    job_code = l';
                    state =
                        failed_state d d' j j' code t h a b e e' f g
                          (save_document_stored db laws d d' s st.document_row m.document_id
                            m.document_created)
                          (save_job_after db laws i d d' j j' s st m);
                  })
            ]
          ]
        ]
