-- ===== src/System/Abouts.antt =====
-- What every change of the rows keeps besides their consistency: the keys of the documents' rows,
-- and that the job of a run stays with its document until both are gone.
use enterprise_knowledge_sea.Common.{
  ℕ, ◌≡◌, ◌≢◌, none, ◌==◌, inl, inr, arith, sym, ◌∙◌, ap, subst, Bool-cases, Option-cases,
}
use enterprise_knowledge_sea.Domain.Document.{Document}
use enterprise_knowledge_sea.Domain.Job.{IngestionJob}
use enterprise_knowledge_sea.Persistence.Records.{document_to_record, job_to_record}
use enterprise_knowledge_sea.Persistence.Session.{Database, DatabaseLaws}
use enterprise_knowledge_sea.Application.Ingestion.Pairs.{
  Stored, IsConsistent, row_owner, replaced-Stored, other-Stored, same-Stored,
}
use enterprise_knowledge_sea.Application.Ingestion.Transactions.{IsAbout, stored, gone}
use enterprise_knowledge_sea.System.Rows.{
  AreKeyed, RowStep, same, entered, advanced, left, dropped, left-Stored, entered-Stored,
  dropped-Stored,
}

module _ {S : Type 0} (db : Database S) (laws : DatabaseLaws db) where
  pub RowStep-AreKeyed :
      (Fresh : ℕ → ℕ → Type 0) (s t : S) → RowStep db Fresh s t → AreKeyed db s → AreKeyed db t
  unfolding document_to_record
  RowStep-AreKeyed Fresh s t (same m) k e r h = k e r (sym (m.documents e) ∙ h)
  RowStep-AreKeyed Fresh s t (entered d j p q a b f rep) k e r h =
      ground (arith, rep.documents e, k e r)
  RowStep-AreKeyed Fresh s t (advanced i d0 d j0 j st n m rep) k e r h =
      ground (arith, rep.documents e, k e r)
  RowStep-AreKeyed Fresh s t (left q d f v g m p re) k e r h = ground (arith, re.documents e, k e r)
  RowStep-AreKeyed Fresh s t (dropped d a f) k e r h =
      ground (arith, ap (db.find_document e) f, laws.find_document-drop d e s, k e r)

  module _ (s t : S) (c : IsConsistent db s) (i e : ℕ) where
    no_job_after_drop :
        (k : ℕ) → db.find_job k s ≡ none → db.find_job k (db.drop_document e s) ≡ none
    no_job_after_drop k h = elim (Option-cases (db.find_job k (db.drop_document e s))) [
      | inl f ↦ f
      | inr (r, f) ↦ ground (arith, laws.find_job-drop_found e k r s f)
    ]

    job_dropped :
        (d : Document) (j : IngestionJob)
        → Stored db i d j s
        → d.id ≡ e
        → db.find_job i (db.drop_document e s) ≡ none
    job_dropped d j st h = elim (Option-cases (db.find_job i (db.drop_document e s))) [
      | inl f ↦ f
      | inr (r, f) ↦
          let (g, n) = laws.find_job-drop_found e i r s f in
          let q : r ≡ job_to_record j = ground (arith, st.job_row) in
          elim (n (ap (λ x. x.document_id) q ∙ row_owner j ∙ st.pair.owner ∙ h)) [ ]
    ]

  -- A change whose new keys are not those of a run keeps the run's job with its document.
  pub RowStep-IsAbout :
      (Fresh : ℕ → ℕ → Type 0) (s t : S) (i e : ℕ)
      → ((d j : ℕ) → Fresh d j → (j ≢ i) × (d ≢ e))
      → IsConsistent db s
      → RowStep db Fresh s t
      → IsAbout db laws i e s
      → IsAbout db laws i e t
  RowStep-IsAbout Fresh s t i e apart c (same m) (stored d j st f) =
      stored d j (same-Stored db s t m i d j st) f
  RowStep-IsAbout Fresh s t i e apart c (same m) (gone f g) =
      gone (m.jobs i ∙ f) (m.documents e ∙ g)
  RowStep-IsAbout Fresh s t i e apart c (entered d1 j1 p q a b k rep) (stored d j st f) =
      stored d j (entered-Stored db s t c d1 j1 p a b rep i d j st) f
  RowStep-IsAbout Fresh s t i e apart c (entered d1 j1 p q a b k rep) (gone f g) =
      let (n, m) = apart d1.id j1.id k in
      gone (ground (arith, rep.jobs i)) (ground (arith, rep.documents e))
  RowStep-IsAbout Fresh s t i e apart c (advanced k d0 d1 j0 j1 st1 n m rep) (stored d j st f) =
      elim (Bool-cases (j1.id == i)) [
        | inl g ↦
            let h : k ≡ i = sym st1.key ∙ sym n.job_id ∙ ground arith in
            let st2 = subst (λ x. Stored db x d0 j0 s) h st1 in
            let o : job_to_record j0 ≡ job_to_record j = ground (arith, st.job_row, st2.job_row) in
            stored d1 j1
              (replaced-Stored db s t c i d0 d1 j0 j1 st2 n.pair n.document_id n.job_id rep)
              (n.document_id
                ∙ sym st2.pair.owner
                ∙ sym (row_owner j0)
                ∙ ap (λ x. x.document_id) o
                ∙ row_owner j
                ∙ st.pair.owner
                ∙ f)
        | inr g ↦
            stored d j
              (other-Stored db s t c k d0 d1 j0 j1 st1 n.pair n.document_id n.job_id rep i d j st
                (ground arith))
              f
      ]
  RowStep-IsAbout Fresh s t i e apart c (advanced k d0 d1 j0 j1 st1 n m rep) (gone f g) =
      gone (ground (arith, rep.jobs i, st1.job_row, st1.key, n.job_id))
        (ground (arith, rep.documents e, st1.document_row, n.document_id))
  RowStep-IsAbout Fresh s t i e apart c (left q d1 a v b m p re) (stored d j st f) =
      let (d', st', g) = left-Stored db s t c d1 v b p re i d j st in stored d' j st' (g ∙ f)
  RowStep-IsAbout Fresh s t i e apart c (left q d1 a v b m p re) (gone f g) =
      gone (re.jobs i ∙ f) (ground (arith, re.documents e))
  RowStep-IsAbout Fresh s t i e apart c (dropped k a b) (stored d j st f) =
      subst (IsAbout db laws i e) (sym b) (elim (Bool-cases (k == e)) [
        | inl h ↦
            let g : k ≡ e = ground arith in
            subst (λ x. IsAbout db laws i e (db.drop_document x s)) (sym g)
              (gone (job_dropped s s c i e d j st f)
                (ground (arith, laws.find_document-drop e e s)))
        | inr h ↦ stored d j (dropped-Stored db laws s c k i d j st (ground arith)) f
      ])
  RowStep-IsAbout Fresh s t i e apart c (dropped k a b) (gone f g) =
      subst (IsAbout db laws i e) (sym b)
        (gone (no_job_after_drop s s c i k i f) (ground (arith, laws.find_document-drop k e s)))
