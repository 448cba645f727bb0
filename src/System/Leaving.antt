-- ===== src/System/Leaving.antt =====
-- The two transactions of a deletion, as changes of the rows.
use enterprise_knowledge_sea.Common.{
  ℕ, ◌≡◌, ◌≢◌, ◌⊎◌, inl, inr, none, some, List, arith, sym, ◌∙◌, ap, subst, Option-cases, refl,
  true, false, suc,
}
use enterprise_knowledge_sea.Status.{
  DocumentStatus, IngestionJobStatus, uploaded, processing, ready, deleting, document_status_eq,
  document_allowed, document_status_of_value, media_type_of_value,
}
use enterprise_knowledge_sea.Errors.{Error, ok, err, Result-cases, >>=-eq-ok}
use enterprise_knowledge_sea.Domain.Checks.{Datetime}
use enterprise_knowledge_sea.Domain.Document
use enterprise_knowledge_sea.Domain.Document.{Document}
use enterprise_knowledge_sea.Domain.Document.Lifecycle as DocumentLifecycle
use enterprise_knowledge_sea.Domain.Job.{IngestionJob}
use enterprise_knowledge_sea.Persistence.Records.{
  DocumentRecord, document_to_record, record_to_document, or_value_error,
}
use enterprise_knowledge_sea.Persistence.Records.RoundTrip.{record_to_document-document_to_record}
use enterprise_knowledge_sea.Persistence.Session.{Database, DatabaseLaws}
use enterprise_knowledge_sea.Persistence.Repositories.{
  get_document, save_document, delete_document, increment_revision, list_jobs,
}
use enterprise_knowledge_sea.Application.Documents.{begin_deletion}
use enterprise_knowledge_sea.Application.Ingestion.Pairs.{
  Paired, Stored, waiting, working, indexed, broken, leaving_indexed, leaving_broken,
}
use enterprise_knowledge_sea.System.{Move, leave_ready, leave_failed, stage}
use enterprise_knowledge_sea.System.Rows.{AreKeyed, RowStep, Redocumented, left, dropped}
use enterprise_knowledge_sea.System.Effects.{unchanged}
use enterprise_knowledge_sea.System.Stages.{stage_of_row}

-- What a row is read as has its id, its time of creation and its status.
record_read :
    (r : DocumentRecord) (d : Document)
    → record_to_document r ≡ ok d
    → DocumentLifecycle.IsValid d
      × (d.id ≡ r.id)
      × (d.created_at ≡ r.created_at)
      × (document_status_of_value r.status ≡ some d.status)
unfolding record_to_document
record_read r d h =
    let (m, e, h1) = >>=-eq-ok (or_value_error (media_type_of_value r.media_type)) _ h in
    let (a, f, h2) = >>=-eq-ok (or_value_error (document_status_of_value r.status)) _ h1 in
    let (v, g) = DocumentLifecycle.IsValid-post_init _ d h2 in
    (
      subst DocumentLifecycle.IsValid (sym g) v,
      ap (λ x. x.id) g,
      ap (λ x. x.created_at) g,
      ground (arith, ap (λ x. x.status) g),
    )

leaving_from :
    (a : DocumentStatus)
    → document_allowed a deleting ≡ true
    → (a ≡ ready) ⊎ (a ≡ DocumentStatus.failed)
unfolding document_allowed
leaving_from uploaded h = ground arith
leaving_from DocumentStatus.queued h = ground arith
leaving_from processing h = ground arith
leaving_from ready h = inl refl
leaving_from DocumentStatus.failed h = inr refl
leaving_from deleting h = ground arith

leaving_pair :
    (a : DocumentStatus) (b : IngestionJobStatus)
    → Paired a b
    → (a ≡ ready) ⊎ (a ≡ DocumentStatus.failed)
    → Paired deleting b
leaving_pair a b waiting h = ground arith
leaving_pair a b working h = ground arith
leaving_pair a b indexed h = leaving_indexed
leaving_pair a b broken h = leaving_broken
leaving_pair a b leaving_indexed h = leaving_indexed
leaving_pair a b leaving_broken h = leaving_broken

leaving_move :
    (a : DocumentStatus) → (a ≡ ready) ⊎ (a ≡ DocumentStatus.failed) → Move (some a) (some deleting)
leaving_move a (inl e) = rw e leave_ready
leaving_move a (inr e) = rw e leave_failed

marked :
    (clock : Datetime) (d d' : Document)
    → DocumentLifecycle.IsValid d
    → Document.mark_deleting none clock d ≡ ok d'
    → DocumentLifecycle.IsValid d'
      × (document_allowed d.status deleting ≡ true)
      × (d'.status ≡ deleting)
      × (d'.id ≡ d.id)
      × (d'.created_at ≡ d.created_at)
unfolding Document.mark_deleting
marked clock d d' v h =
    let (p, e, w) = DocumentLifecycle.transition_returned deleting none none clock d v d' h in
    (w, p.allowed, ap (λ x. x.status) e, ap (λ x. x.id) e, ap (λ x. x.created_at) e)

module _ {S : Type 0} (db : Database S) (laws : DatabaseLaws db) (Fresh : ℕ → ℕ → Type 0) where
  saved_over :
      (d : Document) (r : DocumentRecord) (s : S)
      → db.find_document d.id s ≡ some r
      → d.id ≡ r.id
      → d.created_at ≡ r.created_at
      → save_document db d s ≡ ok (tt, db.write_document (document_to_record d) s)
  unfolding save_document document_to_record
  saved_over d r s f e e' = cc

  -- the state that the first transaction leaves, where it marks the document
  marked_state :
      (clock : Datetime) (e : ℕ) (d d' x : Document) (ids : List ℕ) (s t : S)
      → begin_deletion db clock e s ≡ ok ((x, ids), t)
      → get_document db e s ≡ ok (some d, s)
      → document_status_eq d.status deleting ≡ false
      → Document.mark_deleting none clock d ≡ ok d'
      → save_document db d' s ≡ ok (tt, db.write_document (document_to_record d') s)
      → (x ≡ d') × (n : ℕ) × (t ≡ db.write_revision n (db.write_document (document_to_record d') s))
  unfolding begin_deletion increment_revision list_jobs
  marked_state clock e d d' x ids s t h a b f g =
      elim (Option-cases (db.revision (db.write_document (document_to_record d') s))) [
        | inl m ↦ ground arith
        | inr (n, m) ↦ (ground arith, suc n, ground arith)
      ]

  -- where it finds the document marked, nothing is written
  unmarked_state :
      (clock : Datetime) (e : ℕ) (d x : Document) (ids : List ℕ) (s t : S)
      → begin_deletion db clock e s ≡ ok ((x, ids), t)
      → get_document db e s ≡ ok (some d, s)
      → d.status ≡ deleting
      → (x ≡ d) × (t ≡ s)
  unfolding begin_deletion list_jobs document_status_eq
  unmarked_state clock e d x ids s t h a b = ground arith

  -- it began with a row that was read
  begun_row :
      (clock : Datetime) (e : ℕ) (x : Document) (ids : List ℕ) (s t : S)
      → begin_deletion db clock e s ≡ ok ((x, ids), t)
      → (r : DocumentRecord) × (d : Document) × (db.find_document e s ≡ some r)
        × (record_to_document r ≡ ok d)
        × (get_document db e s ≡ ok (some d, s))
  unfolding begin_deletion get_document
  begun_row clock e x ids s t h = elim (Option-cases (db.find_document e s)) [
    | inl f ↦ ground arith
    | inr (r, f) ↦ elim (Result-cases (record_to_document r)) [
      | inr (y, g) ↦ ground arith
      | inl (d, g) ↦ (r, d, f, g, ground arith)
    ]
  ]

  -- the job of the document that is read at its row is a job of that document
  same_document :
      (i : ℕ) (d1 d : Document) (j1 : IngestionJob) (r : DocumentRecord) (s : S)
      → Stored db i d1 j1 s
      → db.find_document d1.id s ≡ some r
      → record_to_document r ≡ ok d
      → d1 ≡ d
  same_document i d1 d j1 r s st f g =
      let back = record_to_document-document_to_record d1 st.pair.document-IsValid in
      let e : document_to_record d1 ≡ r = ground (arith, st.document_row) in
      ground (arith, ap record_to_document e)

  stage_read :
      (e : ℕ) (s : S) (r : DocumentRecord) (a : DocumentStatus)
      → db.find_document e s ≡ some r
      → document_status_of_value r.status ≡ some a
      → stage db e s ≡ some a
  unfolding stage
  stage_read e s r a f g = ground arith

  is_deleting : (a : DocumentStatus) → (a ≡ deleting) ⊎ (document_status_eq a deleting ≡ false)
  unfolding document_status_eq
  is_deleting deleting = inl refl
  is_deleting _ = inr refl

  not_marked :
      (clock : Datetime) (e : ℕ) (d x : Document) (ids : List ℕ) (s t : S) (raised : Error)
      → begin_deletion db clock e s ≡ ok ((x, ids), t)
      → get_document db e s ≡ ok (some d, s)
      → document_status_eq d.status deleting ≡ false
      → Document.mark_deleting none clock d ≢ err raised
  unfolding begin_deletion
  not_marked clock e d x ids s t raised h a b = ground arith

  written_document :
      (d : Document) (n : ℕ) (s : S)
      → Redocumented db d s (db.write_revision n (db.write_document (document_to_record d) s))
  unfolding document_to_record
  written_document d n s = record {
    jobs = λ i.
        laws.find_job-write_revision n i _
        ∙ laws.find_job-write_document (document_to_record d) i s;
    documents = λ k.
        laws.find_document-write_revision n k _
        ∙ laws.find_document-write (document_to_record d) k s;
  }

  marked-RowStep :
      (clock : Datetime) (d d' : Document) (r : DocumentRecord) (n : ℕ) (s : S)
      → db.find_document d'.id s ≡ some r
      → record_to_document r ≡ ok d
      → Document.mark_deleting none clock d ≡ ok d'
      → RowStep db Fresh s (db.write_revision n (db.write_document (document_to_record d') s))
  marked-RowStep clock d d' r n s f g m =
      let (v, id, created, status) = record_read r d g in
      let (w, allowed, st, id', created') = marked clock d d' v m in
      left r d' f w st
        (subst (λ x. Move x (some deleting)) (sym (stage_read d'.id s r d.status f status))
          (leaving_move d.status (leaving_from d.status allowed)))
        (λ i d1 j1 stored same.
          let q = same_document i d1 d j1 r s stored (ap (λ k. db.find_document k s) same ∙ f) g in
          leaving_pair d.status j1.status
            (subst (λ k. Paired k.status j1.status) q stored.pair.paired)
            (leaving_from d.status allowed))
        (written_document d' n s)

  pub begin_deletion-RowStep :
      (clock : Datetime) (e : ℕ) (x : Document) (ids : List ℕ) (s t : S)
      → AreKeyed db s
      → begin_deletion db clock e s ≡ ok ((x, ids), t)
      → RowStep db Fresh s t × (stage db x.id t ≡ some deleting)
  begin_deletion-RowStep clock e x ids s t keyed h =
      let (r, d, f, g, a) = begun_row clock e x ids s t h in
      let (v, id, created, status) = record_read r d g in
      elim (is_deleting d.status) [
        | inl q ↦
            let (same, same_state) = unmarked_state clock e d x ids s t h a q in
            (
              unchanged db laws Fresh s t same_state,
              ap (λ k. stage db k.id t) same
                  ∙ ap (λ k. stage db k t) (id ∙ keyed e r f)
                  ∙ ap (stage db e) same_state
                  ∙ stage_read e s r d.status f status
                  ∙ ap some q,
            )
        | inr q ↦ elim (Result-cases (Document.mark_deleting none clock d)) [
          | inr (y, m) ↦ elim (not_marked clock e d x ids s t y h a q m) [ ]
          | inl (d', m) ↦
              let (w, allowed, st, id', created') = marked clock d d' v m in
              let f' = ap (λ k. db.find_document k s) (id' ∙ id ∙ keyed e r f) ∙ f in
              let (same, n, state) =
                marked_state clock e d d' x ids s t h a q m
                  (saved_over d' r s f' (id' ∙ id) (created' ∙ created)) in
              let re = written_document d' n s in
              (
                subst (RowStep db Fresh s) (sym state) (marked-RowStep clock d d' r n s f' g m),
                ap (λ k. stage db k.id t) same
                    ∙ ap (stage db d'.id) state
                    ∙ stage_of_row db d' d'.id _ (ground (arith, re.documents d'.id))
                    ∙ ap some st,
              )
        ]
      ]

  pub delete_document-RowStep :
      (e : ℕ) (s t : S)
      → (stage db e s ≡ none) ⊎ (stage db e s ≡ some deleting)
      → delete_document db e s ≡ ok (tt, t)
      → RowStep db Fresh s t
  unfolding delete_document
  delete_document-RowStep e s t a h = elim (Option-cases (db.find_document e s)) [
    | inl f ↦ unchanged db laws Fresh s t (ground arith)
    | inr (r, f) ↦ dropped e a (ground arith)
  ]
