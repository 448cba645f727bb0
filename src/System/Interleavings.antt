-- ===== src/System/Interleavings.antt =====
-- Any interleaving of the transactions of concurrent submissions, processor runs and deletions.
use enterprise_knowledge_sea.Common.{
  ℕ, ◌≡◌, refl, All-of_Among, ◌≢◌, Option, none, some, ◌∷◌, ◌⊎◌, inl, inr, All, All-Among, arith,
  sym, ◌∙◌, ap, subst, Bool-cases, ◌==◌,
}
use enterprise_knowledge_sea.Status.{DocumentStatus, deleting}
use enterprise_knowledge_sea.Errors.{ok}
use enterprise_knowledge_sea.Domain.Checks.{Datetime}
use enterprise_knowledge_sea.Persistence.Session.{Database, DatabaseLaws, Tx, transaction}
use enterprise_knowledge_sea.Persistence.Repositories.{delete_document}
use enterprise_knowledge_sea.Application.Documents.{
  DocumentSubmission, register, mark_dispatch_failed, begin_deletion,
}
use enterprise_knowledge_sea.Application.Ingestion.{start_job, finish_job, mark_failed}
use enterprise_knowledge_sea.Application.Ingestion.Pairs.{Pair, IsConsistent}
use enterprise_knowledge_sea.Application.Ingestion.Transactions.{
  IsAbout, transaction-cases, transaction_keeps,
}
use enterprise_knowledge_sea.System.{
  Move, stay, submit, drop, leave_ready, leave_failed, begin, retry, index, reject, fail, stage,
  World, IsFresh, Step, registers, dispatch_fails, starts, finishes, fails, begins_deletion, drops,
  Reach, here, next, register_step, dispatch_failed_step, start_step, registered, started, begun,
  finish_step, mark_failed_step, begin_deletion_step, drop_step,
}
use enterprise_knowledge_sea.System.Rows.{AreKeyed, RowStep, RowStep-IsConsistent}
use enterprise_knowledge_sea.System.Abouts.{RowStep-AreKeyed, RowStep-IsAbout}
use enterprise_knowledge_sea.System.Stages.{Moves, RowStep-Moves}
use enterprise_knowledge_sea.System.Registration.{new_submission-Pair}
use enterprise_knowledge_sea.System.Effects.{
  register-RowStep, dispatch_failed-RowStep, start-RowStep, unchanged,
}
use enterprise_knowledge_sea.System.Completion.{finish-RowStep, mark_failed-RowStep}
use enterprise_knowledge_sea.System.Leaving.{begin_deletion-RowStep, delete_document-RowStep}

leaving_kept :
    (a b : Option DocumentStatus)
    → Move a b
    → (a ≡ none) ⊎ (a ≡ some deleting)
    → ((b ≡ none) ⊎ (b ≡ some deleting)) ⊎ (a ≡ none)
leaving_kept a b (stay _) h = inl h
leaving_kept a b submit h = inr (ground arith)
leaving_kept a b drop h = inl (ground arith)
leaving_kept a b leave_ready h = ground arith
leaving_kept a b leave_failed h = ground arith
leaving_kept a b begin h = ground arith
leaving_kept a b retry h = ground arith
leaving_kept a b index h = ground arith
leaving_kept a b reject h = ground arith
leaving_kept a b fail h = ground arith

module _ {S : Type 0} (db : Database S) (laws : DatabaseLaws db) where
  -- A document that is marked as deleting, or gone.
  abbrev pub IsLeaving : ℕ → S → Type 0
  IsLeaving e s = (stage db e s ≡ none) ⊎ (stage db e s ≡ some deleting)

  -- The rows are consistent, every run's job is about the run's document while they are there, and
  -- a document whose deletion has begun is deleting or gone.
  pub record IsSound (w : World S) : Type 0 where
    pub consistent : IsConsistent db w.rows
    pub keyed : AreKeyed db w.rows
    pub abouts : All (λ p. IsAbout db laws p.0 p.1 w.rows) w.held
    pub leaves : All (λ e. IsLeaving e w.rows) w.leaving

  RowStep-IsLeaving :
      (Fresh : ℕ → ℕ → Type 0) (s t : S) (e : ℕ)
      → ((d j : ℕ) → Fresh d j → d ≢ e)
      → RowStep db Fresh s t
      → IsLeaving e s
      → IsLeaving e t
  RowStep-IsLeaving Fresh s t e apart step h =
      let m = RowStep-Moves db laws Fresh s t step in
      elim (Bool-cases (m.moved == e)) [
        | inl f ↦
            let g : m.moved ≡ e = ground arith in
            let move = subst (λ x. Move (stage db x s) (stage db x t)) g m.move in
            elim (leaving_kept (stage db e s) (stage db e t) move h) [
              | inl k ↦ k
              | inr k ↦ elim (m.entry (ap (λ x. stage db x s) g ∙ k)) [
                | inl q ↦ inl (ap (λ x. stage db x t) (sym g) ∙ q)
                | inr (j, q) ↦ elim (apart m.moved j q g) [ ]
              ]
            ]
        | inr f ↦
            let q = m.others e (ground arith) in
            elim h [ inl k ↦ inl (q ∙ k) | inr k ↦ inr (q ∙ k) ]
      ]

  -- A change of the rows with fresh keys keeps a world sound, with the same ids held.
  RowStep-IsSound :
      (w : World S) (t : S)
      → IsSound w
      → RowStep db (IsFresh db w) w.rows t
      → IsSound (record w { rows = t })
  RowStep-IsSound w t sound step = record {
    consistent = RowStep-IsConsistent db laws (IsFresh db w) w.rows t step sound.consistent;
    keyed = RowStep-AreKeyed db laws (IsFresh db w) w.rows t step sound.keyed;
    abouts = All-of_Among _ w.held (λ p m.
        RowStep-IsAbout db laws (IsFresh db w) w.rows t p.0 p.1
          (λ d j f. All-Among _ p w.held f.not_held m) sound.consistent step
          (All-Among _ p w.held sound.abouts m));
    leaves = All-of_Among _ w.leaving (λ e m.
        RowStep-IsLeaving (IsFresh db w) w.rows t e
          (λ d j f. All-Among _ e w.leaving f.not_leaving m) step
          (All-Among _ e w.leaving sound.leaves m));
  }

  -- What a step does: a change of the rows with fresh keys, after which the world is sound.
  pub record Outcome (w w' : World S) : Type 0 where
    pub change : RowStep db (IsFresh db w) w.rows w'.rows
    pub sound : IsSound w'

  -- a transaction whose ids held stay as they were
  committed :
      {A : Type 0} (body : Tx S A) (w : World S)
      → IsSound w
      → ((a : A) (t : S) → body w.rows ≡ ok (a, t) → RowStep db (IsFresh db w) w.rows t)
      → Outcome w (record w { rows = (transaction db body w.rows).1 })
  committed body w sound f =
      let step =
        transaction_keeps db body w.rows (RowStep db (IsFresh db w) w.rows)
          (unchanged db laws (IsFresh db w) w.rows w.rows refl) f in
      record { change = step; sound = RowStep-IsSound w _ sound step }

  -- a change after which one more pair of ids is held, or one more document is leaving
  hold :
      (w : World S) (t : S) (i e : ℕ)
      → IsSound w
      → RowStep db (IsFresh db w) w.rows t
      → IsAbout db laws i e t
      → Outcome w (record w { rows = t; held = (i, e) ∷ w.held })
  hold w t i e sound step a =
      let after = RowStep-IsSound w t sound step in
      record {
        change = step;
        sound = record {
          consistent = after.consistent;
          keyed = after.keyed;
          abouts = (a, after.abouts);
          leaves = after.leaves;
        };
      }

  doom :
      (w : World S) (t : S) (e : ℕ)
      → IsSound w
      → RowStep db (IsFresh db w) w.rows t
      → IsLeaving e t
      → Outcome w (record w { rows = t; leaving = e ∷ w.leaving })
  doom w t e sound step l =
      let after = RowStep-IsSound w t sound step in
      record {
        change = step;
        sound = record {
          consistent = after.consistent;
          keyed = after.keyed;
          abouts = after.abouts;
          leaves = (l, after.leaves);
        };
      }

  changed :
      (w : World S) (t : S)
      → IsSound w
      → RowStep db (IsFresh db w) w.rows t
      → Outcome w (record w { rows = t })
  changed w t sound step = record { change = step; sound = RowStep-IsSound w t sound step }

  rolled_back : (w : World S) → IsSound w → Outcome w w
  rolled_back w sound = changed w w.rows sound (unchanged db laws (IsFresh db w) w.rows w.rows refl)

  registers_Outcome :
      (sub : DocumentSubmission) (w : World S)
      → IsSound w
      → Pair sub.document sub.job
      → sub.document.status ≡ DocumentStatus.queued
      → IsFresh db w sub.document.id sub.job.id
      → Outcome w (register_step db sub w)
  unfolding register_step
  registers_Outcome sub w sound p q f =
      elim (transaction-cases db (register db sub.document sub.job) w.rows) [
        | inl (e, g) ↦ subst (Outcome w) (sym (ap (registered sub w) g)) (rolled_back w sound)
        | inr (a, t, h, g) ↦
            let (step, about) =
              register-RowStep db laws (IsFresh db w) sub.document sub.job w.rows t p q
                f.no_document f.no_job f h in
            subst (Outcome w) (sym (ap (registered sub w) g))
              (hold w t sub.job.id sub.document.id sound step about)
      ]

  starts_Outcome :
      (clock : ℕ → Datetime) (i : ℕ) (w : World S) → IsSound w → Outcome w (start_step db clock i w)
  unfolding start_step
  starts_Outcome clock i w sound = elim (transaction-cases db (start_job db clock i) w.rows) [
    | inl (e, g) ↦ subst (Outcome w) (sym (ap (started i w) g)) (rolled_back w sound)
    | inr (none, t, h, g) ↦
        let (step, _) =
          start-RowStep db laws (IsFresh db w) clock i w.rows t none sound.consistent h in
        subst (Outcome w) (sym (ap (started i w) g)) (changed w t sound step)
    | inr (some e, t, h, g) ↦
        let (step, about) =
          start-RowStep db laws (IsFresh db w) clock i w.rows t (some e) sound.consistent h in
        subst (Outcome w) (sym (ap (started i w) g)) (hold w t i e sound step (about e refl))
  ]

  begins_Outcome :
      (clock : Datetime) (e : ℕ) (w : World S)
      → IsSound w
      → Outcome w (begin_deletion_step db clock e w)
  unfolding begin_deletion_step
  begins_Outcome clock e w sound = elim (transaction-cases db (begin_deletion db clock e) w.rows) [
    | inl (x, g) ↦ subst (Outcome w) (sym (ap (begun w) g)) (rolled_back w sound)
    | inr ((d, ids), t, h, g) ↦
        let (step, deleted) =
          begin_deletion-RowStep db laws (IsFresh db w) clock e d ids w.rows t sound.keyed h in
        subst (Outcome w) (sym (ap (begun w) g)) (doom w t d.id sound step (inr deleted))
  ]

  Step_Outcome : (w w' : World S) → IsSound w → Step db w w' → Outcome w w'
  unfolding dispatch_failed_step finish_step mark_failed_step drop_step
  Step_Outcome w w' sound (registers clock fresh filename media_type file sub e f) =
      let (p, q) = new_submission-Pair clock fresh filename media_type file sub e in
      registers_Outcome sub w sound p q f
  Step_Outcome w w' sound (starts clock j) = starts_Outcome clock j w sound
  Step_Outcome w w' sound (begins_deletion clock d) = begins_Outcome clock d w sound
  Step_Outcome w w' sound (dispatch_fails clock d j m) =
      committed (mark_dispatch_failed db clock d j) w sound (λ a t.
        dispatch_failed-RowStep db laws (IsFresh db w) clock j d w.rows t
          (All-Among _ (j, d) w.held sound.abouts m))
  Step_Outcome w w' sound (finishes clock d j chunks m) =
      committed (finish_job db clock d j chunks) w sound (λ a t.
        finish-RowStep db laws (IsFresh db w) clock j d chunks w.rows t
          (All-Among _ (j, d) w.held sound.abouts m))
  Step_Outcome w w' sound (fails clock d j code m) =
      committed (mark_failed db clock d j code) w sound (λ a t.
        mark_failed-RowStep db laws (IsFresh db w) clock j d code w.rows t
          (All-Among _ (j, d) w.held sound.abouts m))
  Step_Outcome w w' sound (drops d m) = committed (delete_document db d) w sound (λ a t.
      delete_document-RowStep db laws (IsFresh db w) d w.rows t
        (All-Among _ d w.leaving sound.leaves m))

  -- Over a database that meets the laws, and where no two transactions overlap (which READ COMMITTED
  -- alone does not ensure), however the transactions of any number of submissions, processor runs
  -- and deletions follow one another from a sound world on, each run using the ids that
  -- it holds and each submission fresh ones, the world stays sound: the rows of documents and jobs
  -- are consistent and stand under their ids, the job that a run holds is about the document it
  -- holds until both are gone, and a document whose deletion has begun is deleting or gone.
  pub Reach-IsSound : (w w' : World S) → IsSound w → Reach db w w' → IsSound w'
  Reach-IsSound w w' sound here = sound
  Reach-IsSound w w' sound (next {u} {v} before step) =
      (Step_Outcome u w' (Reach-IsSound w u sound before) step).sound

  -- From a sound world, and where no two transactions overlap (which READ COMMITTED alone does not
  -- ensure), every transaction in every order of them moves at most one document, as the
  -- abstract life cycle allows, and a document that appears has an id that was fresh.
  pub Reach-Moves :
      (w u v : World S)
      → IsSound w
      → Reach db w u
      → Step db u v
      → Moves db (IsFresh db u) u.rows v.rows
  Reach-Moves w u v sound before step =
      RowStep-Moves db laws (IsFresh db u) u.rows v.rows
        (Step_Outcome u v (Reach-IsSound w u sound before) step).change
