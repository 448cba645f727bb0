-- ===== src/Application/Ingestion/Pairs.antt =====
-- What keeps the rows of a document and of its ingestion job consistent, over any database that
-- meets the laws, and the transactions on them.
use enterprise_knowledge_sea.Common.{
  ℕ, ◌≡◌, refl, some, ◌==◌, if◌then◌else◌, ◌⊎◌, inl, inr, arith, sym, ◌≢◌, ◌∙◌, ap, subst,
}
use enterprise_knowledge_sea.Status.{
  DocumentStatus, IngestionJobStatus, deleting, ready, processing, running, succeeded,
}
use enterprise_knowledge_sea.Domain.Document.{Document}
use enterprise_knowledge_sea.Domain.Document.Lifecycle as DocumentLifecycle
use enterprise_knowledge_sea.Domain.Job.{IngestionJob}
use enterprise_knowledge_sea.Domain.Job.Lifecycle as JobLifecycle
use enterprise_knowledge_sea.Persistence.Records.{
  IngestionJobRecord, document_to_record, job_to_record,
}
use enterprise_knowledge_sea.Persistence.Session.{Database}

-- The statuses that a document and its job have together between two transactions.
pub data Paired : DocumentStatus → IngestionJobStatus → Type 0 where
  waiting : Paired DocumentStatus.queued IngestionJobStatus.queued
  working : Paired processing running
  indexed : Paired ready succeeded
  broken : Paired DocumentStatus.failed IngestionJobStatus.failed
  leaving_indexed : Paired deleting succeeded
  leaving_broken : Paired deleting IngestionJobStatus.failed

-- A valid job and the valid document it belongs to.
pub record Pair (d : Document) (j : IngestionJob) : Type 0 where
  pub document-IsValid : DocumentLifecycle.IsValid d
  pub job_valid : JobLifecycle.IsValid j
  pub owner : j.document_id ≡ d.id
  pub paired : Paired d.status j.status

pub row_owner : (j : IngestionJob) → (job_to_record j).document_id ≡ j.document_id
unfolding job_to_record
row_owner j = refl

module _ {S : Type 0} (db : Database S) where
  -- The rows of a job and of its document.
  pub record Stored (i : ℕ) (d : Document) (j : IngestionJob) (s : S) : Type 0 where
    pub pair : Pair d j
    pub key : j.id ≡ i
    pub job_row : db.find_job i s ≡ some (job_to_record j)
    pub document_row : db.find_document d.id s ≡ some (document_to_record d)

  -- Every job's row has a document's row that fits, and no two jobs share a document.
  pub record IsConsistent (s : S) : Type 0 where
    pub backed :
        (i : ℕ) (r : IngestionJobRecord)
        → db.find_job i s ≡ some r
        → (d : Document) × (j : IngestionJob) × (r ≡ job_to_record j) × Stored i d j s
    pub alone :
        (i k : ℕ) (r q : IngestionJobRecord)
        → db.find_job i s ≡ some r
        → db.find_job k s ≡ some q
        → r.document_id ≡ q.document_id
        → i ≡ k

  -- The rows of the two tables are those of another state.
  pub record SameRows (s t : S) : Type 0 where
    pub jobs : (i : ℕ) → db.find_job i t ≡ db.find_job i s
    pub documents : (d : ℕ) → db.find_document d t ≡ db.find_document d s

  -- The rows with those of one pair replaced.
  pub record Replaced (d : Document) (j : IngestionJob) (s t : S) : Type 0 where
    pub jobs :
        (i : ℕ) → db.find_job i t ≡ (if j.id == i then some (job_to_record j) else db.find_job i s)
    pub documents :
        (k : ℕ)
        → db.find_document k t
          ≡ (if d.id == k then some (document_to_record d) else db.find_document k s)

  -- Replacing the rows of a pair by those of a pair with the same keys keeps the rows consistent.
  module _ (s t : S) (c : IsConsistent s) (i : ℕ) (d0 d : Document) (j0 j : IngestionJob)
      (st : Stored i d0 j0 s) (p : Pair d j) (same_document : d.id ≡ d0.id)
      (same_job : j.id ≡ j0.id) (rep : Replaced d j s t) where
    pub replaced-Stored : Stored i d j t
    replaced-Stored = record {
      pair = p;
      key = same_job ∙ st.key;
      job_row = ground (arith, rep.jobs i, st.key, same_job);
      document_row = ground (arith, rep.documents d.id);
    }

    other-apart :
        (k : ℕ) (d1 : Document) (j1 : IngestionJob) → Stored k d1 j1 s → j.id ≢ k → d.id ≢ d1.id
    other-apart k d1 j1 st1 n e = n (
        same_job
        ∙ st.key
        ∙ c.alone i k (job_to_record j0) (job_to_record j1) st.job_row st1.job_row (
            row_owner j0
            ∙ st.pair.owner
            ∙ sym same_document
            ∙ e
            ∙ sym st1.pair.owner
            ∙ sym (row_owner j1)))

    pub other-Stored :
        (k : ℕ) (d1 : Document) (j1 : IngestionJob) → Stored k d1 j1 s → j.id ≢ k → Stored k d1 j1 t
    other-Stored k d1 j1 st1 n = record {
      pair = st1.pair;
      key = st1.key;
      job_row = ground (arith, rep.jobs k, st1.job_row);
      document_row =
          ground (arith, rep.documents d1.id, st1.document_row, other-apart k d1 j1 st1 n);
    }

    replaced-job :
        (k : ℕ) (r : IngestionJobRecord)
        → db.find_job k t ≡ some r
        → ((j.id ≡ k) × (r ≡ job_to_record j)) ⊎ ((j.id ≢ k) × (db.find_job k s ≡ some r))
    replaced-job k r h = ground (arith, rep.jobs k)

    old_row :
        (k : ℕ) (r : IngestionJobRecord)
        → db.find_job k t ≡ some r
        → (q : IngestionJobRecord) × (db.find_job k s ≡ some q) × (r.document_id ≡ q.document_id)
    old_row k r h = elim (replaced-job k r h) [
      | inl (e, f) ↦ (
        job_to_record j0,
        ap (λ m. db.find_job m s) (sym e ∙ same_job ∙ st.key) ∙ st.job_row,
        ap (λ q. q.document_id) f
            ∙ row_owner j
            ∙ p.owner
            ∙ same_document
            ∙ sym st.pair.owner
            ∙ sym (row_owner j0),
      )
      | inr (n, f) ↦ (r, f, refl)
    ]

    backed_after :
        (k : ℕ) (r : IngestionJobRecord)
        → db.find_job k t ≡ some r
        → (e : Document) × (f : IngestionJob) × (r ≡ job_to_record f) × Stored k e f t
    backed_after k r h = elim (replaced-job k r h) [
      | inl (e, f) ↦
          (d, j, f, subst (λ m. Stored m d j t) (sym st.key ∙ sym same_job ∙ e) replaced-Stored)
      | inr (n, f) ↦
          let (d1, j1, g, st1) = c.backed k r f in (d1, j1, g, other-Stored k d1 j1 st1 n)
    ]

    alone_after :
        (k l : ℕ) (r q : IngestionJobRecord)
        → db.find_job k t ≡ some r
        → db.find_job l t ≡ some q
        → r.document_id ≡ q.document_id
        → k ≡ l
    alone_after k l r q h h' e =
        let (r0, f, g) = old_row k r h in
        let (q0, f', g') = old_row l q h' in c.alone k l r0 q0 f f' (sym g ∙ e ∙ g')

    pub replaced-IsConsistent : IsConsistent t
    replaced-IsConsistent = record { backed = backed_after; alone = alone_after }

  module _ (s t : S) (same : SameRows s t) where
    pub same-Stored : (i : ℕ) (d : Document) (j : IngestionJob) → Stored i d j s → Stored i d j t
    same-Stored i d j st = record {
      pair = st.pair;
      key = st.key;
      job_row = same.jobs i ∙ st.job_row;
      document_row = same.documents d.id ∙ st.document_row;
    }

    pub same-IsConsistent : IsConsistent s → IsConsistent t
    same-IsConsistent c = record {
      backed = λ i r h.
          let (d, j, e, st) = c.backed i r (sym (same.jobs i) ∙ h) in
          (d, j, e, same-Stored i d j st);
      alone = λ i k r q h h'. c.alone i k r q (sym (same.jobs i) ∙ h) (sym (same.jobs k) ∙ h');
    }
