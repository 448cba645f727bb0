-- ===== src/System/Rows.antt =====
-- The changes that a transaction makes to the rows of documents and jobs, and what they keep.
use enterprise_knowledge_sea.Common.{
  ℕ, ◌≡◌, ◌≢◌, refl, none, some, ◌==◌, if◌then◌else◌, ◌⊎◌, inl, inr, arith, sym, ◌∙◌, ap, subst,
  Bool-cases,
}
use enterprise_knowledge_sea.Status.{DocumentStatus, deleting}
use enterprise_knowledge_sea.Domain.Document.{Document}
use enterprise_knowledge_sea.Domain.Document.Lifecycle as DocumentLifecycle
use enterprise_knowledge_sea.Domain.Job.{IngestionJob}
use enterprise_knowledge_sea.Persistence.Records.{
  DocumentRecord, IngestionJobRecord, document_to_record, job_to_record,
}
use enterprise_knowledge_sea.Persistence.Session.{Database, DatabaseLaws}
use enterprise_knowledge_sea.Application.Ingestion.Pairs.{
  Paired, Pair, Stored, IsConsistent, SameRows, Replaced, replaced-IsConsistent, same-IsConsistent,
  row_owner,
}
use enterprise_knowledge_sea.Application.Ingestion.Saving.{Next}
use enterprise_knowledge_sea.System.{Move, stage}

module _ {S : Type 0} (db : Database S) where
  -- Every document's row stands under its id.
  abbrev pub AreKeyed : S → Type 0
  AreKeyed s = (e : ℕ) (r : DocumentRecord) → db.find_document e s ≡ some r → r.id ≡ e

  -- The rows with a document's replaced.
  pub record Redocumented (d : Document) (s t : S) : Type 0 where
    pub jobs : (i : ℕ) → db.find_job i t ≡ db.find_job i s
    pub documents :
        (k : ℕ)
        → db.find_document k t
          ≡ (if d.id == k then some (document_to_record d) else db.find_document k s)

  -- A new pair of rows, a pair replaced, a document marked as deleting, a document dropped with
  -- its jobs. The keys of a new pair are ones that `Fresh` allows.
  pub data RowStep (Fresh : ℕ → ℕ → Type 0) (s t : S) : Type 0 where
    same : SameRows db s t → RowStep Fresh s t
    entered :
        (d : Document) (j : IngestionJob)
        → Pair d j
        → d.status ≡ DocumentStatus.queued
        → db.find_document d.id s ≡ none
        → db.find_job j.id s ≡ none
        → Fresh d.id j.id
        → Replaced db d j s t
        → RowStep Fresh s t
    advanced :
        (i : ℕ) (d0 d : Document) (j0 j : IngestionJob)
        → Stored db i d0 j0 s
        → Next d0 j0 d j
        → Move (some d0.status) (some d.status)
        → Replaced db d j s t
        → RowStep Fresh s t
    left :
        (r : DocumentRecord) (d : Document)
        → db.find_document d.id s ≡ some r
        → DocumentLifecycle.IsValid d
        → d.status ≡ deleting
        → Move (stage db d.id s) (some deleting)
        → ((i : ℕ) (d1 : Document) (j1 : IngestionJob)
            → Stored db i d1 j1 s
            → d1.id ≡ d.id
            → Paired deleting j1.status)
        → Redocumented d s t
        → RowStep Fresh s t
    dropped :
        (e : ℕ)
        → (stage db e s ≡ none) ⊎ (stage db e s ≡ some deleting)
        → t ≡ db.drop_document e s
        → RowStep Fresh s t

  module _ (s t : S) (c : IsConsistent db s) (d : Document) (v : DocumentLifecycle.IsValid d)
      (e : d.status ≡ deleting)
      (p : (i : ℕ) (d1 : Document) (j1 : IngestionJob)
        → Stored db i d1 j1 s
        → d1.id ≡ d.id
        → Paired deleting j1.status)
      (re : Redocumented d s t) where
    -- The document that a job has after the change.
    pub left-Stored :
        (i : ℕ) (d1 : Document) (j : IngestionJob)
        → Stored db i d1 j s
        → (d' : Document) × Stored db i d' j t × (d'.id ≡ d1.id)
    left-Stored i d1 j st = elim (Bool-cases (d.id == d1.id)) [
      | inl f ↦
          let g : d1.id ≡ d.id = ground arith in
          (
            d,
            record {
              pair = record {
                document-IsValid = v;
                job_valid = st.pair.job_valid;
                owner = st.pair.owner ∙ g;
                paired = subst (λ a. Paired a j.status) (sym e) (p i d1 j st g);
              };
              key = st.key;
              job_row = re.jobs i ∙ st.job_row;
              document_row = ground (arith, re.documents d.id);
            },
            sym g,
          )
      | inr f ↦ (
        d1,
        record {
          pair = st.pair;
          key = st.key;
          job_row = re.jobs i ∙ st.job_row;
          document_row = ground (arith, re.documents d1.id, st.document_row);
        },
        refl,
      )
    ]

    left-IsConsistent : IsConsistent db t
    left-IsConsistent = record {
      backed = λ i r h.
          let (d1, j, f, st) = c.backed i r (sym (re.jobs i) ∙ h) in
          let (d', st', _) = left-Stored i d1 j st in (d', j, f, st');
      alone = λ i k r q h h'. c.alone i k r q (sym (re.jobs i) ∙ h) (sym (re.jobs k) ∙ h');
    }

  pub new-Stored :
      (d : Document) (j : IngestionJob) (s t : S)
      → Pair d j
      → Replaced db d j s t
      → Stored db j.id d j t
  new-Stored d j s t p rep = record {
    pair = p;
    key = refl;
    job_row = ground (arith, rep.jobs j.id);
    document_row = ground (arith, rep.documents d.id);
  }

  module _ (s t : S) (c : IsConsistent db s) (d : Document) (j : IngestionJob) (p : Pair d j)
      (no_document : db.find_document d.id s ≡ none) (no_job : db.find_job j.id s ≡ none)
      (rep : Replaced db d j s t) where
    pub entered-Stored :
        (i : ℕ) (d1 : Document) (j1 : IngestionJob) → Stored db i d1 j1 s → Stored db i d1 j1 t
    entered-Stored i d1 j1 st =
        let a : j.id ≢ i = ground (arith, st.job_row) in
        let b : d.id ≢ d1.id = ground (arith, st.document_row) in
        record {
          pair = st.pair;
          key = st.key;
          job_row = ground (arith, rep.jobs i, st.job_row, a);
          document_row = ground (arith, rep.documents d1.id, st.document_row, b);
        }

    -- a job's row after the change is the new one, or an old one of another document
    entered_row :
        (i : ℕ) (r : IngestionJobRecord)
        → db.find_job i t ≡ some r
        → ((j.id ≡ i) × (r ≡ job_to_record j) × (r.document_id ≡ d.id))
          ⊎ ((db.find_job i s ≡ some r) × (r.document_id ≢ d.id))
    entered_row i r h = elim (Bool-cases (j.id == i)) [
      | inl e ↦
          let f : r ≡ job_to_record j = ground (arith, rep.jobs i) in
          inl (ground arith, f, ap (λ q. q.document_id) f ∙ row_owner j ∙ p.owner)
      | inr e ↦
          let f : db.find_job i s ≡ some r = ground (arith, rep.jobs i) in
          let (d1, j1, g, st) = c.backed i r f in
          let k : r.document_id ≡ d1.id =
            ap (λ q. q.document_id) g ∙ row_owner j1 ∙ st.pair.owner in
          inr (f, λ m. ground (arith, st.document_row, k, m, no_document))
    ]

    entered-IsConsistent : IsConsistent db t
    entered-IsConsistent = record {
      backed = λ i r h. elim (entered_row i r h) [
        | inl (e, f, g) ↦ (d, j, f, subst (λ k. Stored db k d j t) e (new-Stored d j s t p rep))
        | inr (f, g) ↦
            let (d1, j1, m, st) = c.backed i r f in (d1, j1, m, entered-Stored i d1 j1 st)
      ];
      alone = λ i k r q h h' m. elim (entered_row i r h) [
        | inl (e, f, g) ↦ elim (entered_row k q h') [
          | inl (e', f', g') ↦ sym e ∙ e'
          | inr (f', g') ↦ elim (g' (sym m ∙ g)) [ ]
        ]
        | inr (f, g) ↦ elim (entered_row k q h') [
          | inl (e', f', g') ↦ elim (g (m ∙ g')) [ ]
          | inr (f', g') ↦ c.alone i k r q f f' m
        ]
      ];
    }

  module _ (laws : DatabaseLaws db) (s : S) (c : IsConsistent db s) (e : ℕ) where
    pub dropped-Stored :
        (i : ℕ) (d : Document) (j : IngestionJob)
        → Stored db i d j s
        → d.id ≢ e
        → Stored db i d j (db.drop_document e s)
    dropped-Stored i d j st n = record {
      pair = st.pair;
      key = st.key;
      job_row =
          laws.find_job-drop_other e i (job_to_record j) s st.job_row
            (λ f. n (sym st.pair.owner ∙ sym (row_owner j) ∙ f));
      document_row = ground (arith, laws.find_document-drop e d.id s, st.document_row);
    }

    dropped-IsConsistent : IsConsistent db (db.drop_document e s)
    dropped-IsConsistent = record {
      backed = λ i r h.
          let (f, n) = laws.find_job-drop_found e i r s h in
          let (d, j, g, st) = c.backed i r f in
          (
            d,
            j,
            g,
            dropped-Stored i d j st
                (λ m. n (ap (λ q. q.document_id) g ∙ row_owner j ∙ st.pair.owner ∙ m)),
          );
      alone = λ i k r q h h'.
          c.alone i k r q (laws.find_job-drop_found e i r s h).0
            (laws.find_job-drop_found e k q s h').0;
    }

  -- Every change of the rows keeps them consistent.
  pub RowStep-IsConsistent :
      (laws : DatabaseLaws db) (Fresh : ℕ → ℕ → Type 0) (s t : S)
      → RowStep Fresh s t
      → IsConsistent db s
      → IsConsistent db t
  RowStep-IsConsistent laws Fresh s t (same m) c = same-IsConsistent db s t m c
  RowStep-IsConsistent laws Fresh s t (entered d j p q no_document no_job f rep) c =
      entered-IsConsistent s t c d j p no_document no_job rep
  RowStep-IsConsistent laws Fresh s t (advanced i d0 d j0 j st n m rep) c =
      replaced-IsConsistent db s t c i d0 d j0 j st n.pair n.document_id n.job_id rep
  RowStep-IsConsistent laws Fresh s t (left r d f v e m p re) c = left-IsConsistent s t c d v e p re
  RowStep-IsConsistent laws Fresh s t (dropped e g f) c =
      subst (IsConsistent db) (sym f) (dropped-IsConsistent laws s c e)
