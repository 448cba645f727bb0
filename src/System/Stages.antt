-- ===== src/System/Stages.antt =====
-- How the changes of the rows look to a client: one document moves, the others stay.
use enterprise_knowledge_sea.Common.{
  ℕ, ◌≡◌, ◌≢◌, refl, none, some, ◌==◌, if◌then◌else◌, ◌⊎◌, inl, inr, arith, sym, ◌∙◌, ap, subst,
  Option, text_eq,
}
use enterprise_knowledge_sea.Status.{
  DocumentStatus, uploaded, processing, ready, deleting, document_status_value,
  document_status_of_value,
}
use enterprise_knowledge_sea.Domain.Document.{Document}
use enterprise_knowledge_sea.Persistence.Records.{document_to_record}
use enterprise_knowledge_sea.Persistence.Session.{Database, DatabaseLaws}
use enterprise_knowledge_sea.System.{
  Move, stay, submit, begin, retry, index, reject, fail, leave_ready, leave_failed, drop, stage,
}
use enterprise_knowledge_sea.System.Rows.{RowStep, same, entered, advanced, left, dropped}

status_read : (a : DocumentStatus) → document_status_of_value (document_status_value a) ≡ some a
unfolding document_status_of_value document_status_value text_eq
status_read uploaded = refl
status_read DocumentStatus.queued = refl
status_read processing = refl
status_read ready = refl
status_read DocumentStatus.failed = refl
status_read deleting = refl

not_from_none : (a b : Option DocumentStatus) → Move a b → b ≡ some deleting → a ≢ none
not_from_none a b (stay _) e f = ground arith
not_from_none a b submit e f = ground arith
not_from_none a b leave_ready e f = ground arith
not_from_none a b leave_failed e f = ground arith
not_from_none a b begin e f = ground arith
not_from_none a b retry e f = ground arith
not_from_none a b index e f = ground arith
not_from_none a b reject e f = ground arith
not_from_none a b fail e f = ground arith
not_from_none a b drop e f = ground arith

module _ {S : Type 0} (db : Database S) where
  pub stage_of_row :
      (d : Document) (e : ℕ) (s : S)
      → db.find_document e s ≡ some (document_to_record d)
      → stage db e s ≡ some d.status
  unfolding stage document_to_record
  stage_of_row d e s h = ground (arith, status_read d.status)

  pub stage-none : (e : ℕ) (s : S) → db.find_document e s ≡ none → stage db e s ≡ none
  unfolding stage
  stage-none e s h = ground arith

  pub stage_same :
      (e : ℕ) (s t : S) → db.find_document e t ≡ db.find_document e s → stage db e t ≡ stage db e s
  unfolding stage
  stage_same e s t h = ground arith

  -- One document moves as the abstract view allows, and every other stays as it was.
  -- A document that appears has a fresh id.
  pub record Moves (Fresh : ℕ → ℕ → Type 0) (s t : S) : Type 0 where
    pub moved : ℕ
    pub move : Move (stage db moved s) (stage db moved t)
    pub others : (e : ℕ) → e ≢ moved → stage db e t ≡ stage db e s
    pub entry : stage db moved s ≡ none → (stage db moved t ≡ none) ⊎ ((j : ℕ) × Fresh moved j)

  -- the row of one document is another, and the rows of the others are the same
  redocumented-Moves :
      (Fresh : ℕ → ℕ → Type 0) (d : Document) (s t : S)
      → Move (stage db d.id s) (some d.status)
      → ((k : ℕ)
          → db.find_document k t
            ≡ (if d.id == k then some (document_to_record d) else db.find_document k s))
      → (stage db d.id s ≡ none → (j : ℕ) × Fresh d.id j)
      → Moves Fresh s t
  redocumented-Moves Fresh d s t m documents fresh = record {
    moved = d.id;
    move =
        subst (Move (stage db d.id s))
          (sym (stage_of_row d d.id t (ground (arith, documents d.id)))) m;
    others = λ e n. stage_same e s t (ground (arith, documents e));
    entry = λ a. inr (fresh a);
  }

  pub RowStep-Moves :
      (laws : DatabaseLaws db) (Fresh : ℕ → ℕ → Type 0) (s t : S)
      → RowStep db Fresh s t
      → Moves Fresh s t
  RowStep-Moves laws Fresh s t (same m) = record {
    moved = 0;
    move = subst (Move (stage db 0 s)) (sym (stage_same 0 s t (m.documents 0))) (stay _);
    others = λ e n. stage_same e s t (m.documents e);
    entry = λ a. inl (stage_same 0 s t (m.documents 0) ∙ a);
  }
  RowStep-Moves laws Fresh s t (entered d j p q a b k rep) =
      redocumented-Moves Fresh d s t
        (subst (λ x. Move x (some d.status)) (sym (stage-none d.id s a))
          (subst (λ x. Move none (some x)) (sym q) submit))
        rep.documents (λ h. (j.id, k))
  RowStep-Moves laws Fresh s t (advanced i d0 d j0 j st n m rep) =
      let before : stage db d.id s ≡ some d0.status =
        ap (λ x. stage db x s) n.document_id ∙ stage_of_row d0 d0.id s st.document_row in
      redocumented-Moves Fresh d s t (subst (λ x. Move x (some d.status)) (sym before) m)
        rep.documents (λ h. ground arith)
  RowStep-Moves laws Fresh s t (left r d f v e m p re) =
      redocumented-Moves Fresh d s t (subst (λ x. Move (stage db d.id s) (some x)) (sym e) m)
        re.documents (λ h. elim (not_from_none (stage db d.id s) (some deleting) m refl h) [ ])
  RowStep-Moves laws Fresh s t (dropped e a f) =
      let same_row : (k : ℕ)
          → db.find_document k t ≡ (if e == k then none else db.find_document k s) =
        λ k. ap (db.find_document k) f ∙ laws.find_document-drop e k s in
      let empty : stage db e t ≡ none = stage-none e t (ground (arith, same_row e)) in
      record {
        moved = e;
        move = elim a [
          | inl g ↦ subst (Move (stage db e s)) (g ∙ sym empty) (stay _)
          | inr g ↦
              subst (λ x. Move x (stage db e t)) (sym g)
                (subst (Move (some deleting)) (sym empty) drop)
        ];
        others = λ k n. stage_same k s t (ground (arith, same_row k));
        entry = λ h. inl empty;
      }
