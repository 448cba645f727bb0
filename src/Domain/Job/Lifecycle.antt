-- ===== src/Domain/Job/Lifecycle.antt =====
-- What the transitions of `IngestionJob` need, keep and change.
use enterprise_knowledge_sea.Common.{
  ℕ, true, false, ◌≤◌, ◌≡◌, refl, Option, none, some, Text, blank, pos, ◌≤ℤ◌, ◌+ℤ◌, or_default,
  arith, +ℤ_parts, ◌⊎◌, [], ◌∷◌,
}
use enterprise_knowledge_sea.Status.{IngestionJobStatus, running, succeeded, job_allowed}
use enterprise_knowledge_sea.Errors.{ok}
use enterprise_knowledge_sea.Domain.Checks.{Datetime, missing_code}
use enterprise_knowledge_sea.Domain.Job.{
  IngestionJob, Change, post_init, transition, start, succeed, fail, requeue, starting, finishing,
  requeueing,
}

-- a time that is there is aware and not before `low`, nor after `high`
abbrev Between : ℕ → ℕ → Option Datetime → Type 0
Between low high none = Unit
Between low high (some t) = (t.aware ≡ true) × (low ≤ t.instant) × (t.instant ≤ high)

abbrev Ordered : Option Datetime → Option Datetime → Type 0
Ordered (some a) (some b) = a.instant ≤ b.instant
Ordered _ _ = Unit

-- Which times and codes go with a status.
abbrev Shape : IngestionJobStatus → Option Datetime → Option Datetime → Option Text → Type 0
Shape IngestionJobStatus.queued started finished code =
    (started ≡ none) × (finished ≡ none) × (code ≡ none)
Shape running (some _) finished code = (finished ≡ none) × (code ≡ none)
Shape running none finished code = ⊥
Shape succeeded (some _) (some _) code = code ≡ none
Shape succeeded _ _ code = ⊥
Shape IngestionJobStatus.failed started (some _) code = missing_code code ≡ false
Shape IngestionJobStatus.failed started none code = ⊥

-- The timeline of a job: created, started, finished, with the last update at or after each. It
-- is stronger than what `__post_init__` checks.
pub record IsValid (j : IngestionJob) : Type 0 where
  pub attempts : pos 0 ≤ℤ j.attempt_count
  pub created_aware : j.created_at.aware ≡ true
  pub updated_aware : j.updated_at.aware ≡ true
  pub ordered : j.created_at.instant ≤ j.updated_at.instant
  pub started : Between j.created_at.instant j.updated_at.instant j.started_at
  pub finished : Between j.created_at.instant j.updated_at.instant j.finished_at
  pub timeline : Ordered j.started_at j.finished_at
  pub shape : Shape j.status j.started_at j.finished_at j.failure_code

pub post_init-returned : (j k : IngestionJob) → post_init j ≡ ok k → k ≡ j
unfolding post_init
post_init-returned j k h = ground arith

pub post_init_of_IsValid : (j : IngestionJob) → IsValid j → post_init j ≡ ok j
unfolding post_init
post_init_of_IsValid j v = ground arith

pub nonblank_code : (code : Text) → blank code ≡ false → missing_code (some code) ≡ false
unfolding blank
nonblank_code [] h = cc
nonblank_code (c ∷ s) h = refl

-- What a transition writes.
abbrev pub changed : IngestionJobStatus → Datetime → Change → IngestionJob → IngestionJob
changed target at c j = record j {
  status = target;
  attempt_count = or_default c.attempt_count j.attempt_count;
  updated_at = at;
  started_at = c.started_at;
  finished_at = c.finished_at;
  failure_code = c.failure_code;
}

-- What no call changes, and the clock that none turns back.
pub record SameJob (j k : IngestionJob) : Type 0 where
  pub id : k.id ≡ j.id
  pub document_id : k.document_id ≡ j.document_id
  pub created_at : k.created_at ≡ j.created_at
  pub updated_at : j.updated_at.instant ≤ k.updated_at.instant

-- A timestamp that a job accepts.
abbrev pub IsTimely : Datetime → IngestionJob → Type 0
IsTimely at j = (at.aware ≡ true) × (j.updated_at.instant ≤ at.instant)

transition_returned :
    (target : IngestionJobStatus) (at : Datetime) (c : Change) (j k : IngestionJob)
    → IsValid j
    → transition target at c j ≡ ok k
    → (job_allowed j.status target ≡ true) × IsTimely at j × (k ≡ changed target at c j)
unfolding transition
transition_returned target at c j k v h =
    ground (arith, post_init-returned (changed target at c j) k)

transition_permitted :
    (target : IngestionJobStatus) (at : Datetime) (c : Change) (j : IngestionJob)
    → IsValid j
    → job_allowed j.status target ≡ true
    → IsTimely at j
    → IsValid (changed target at c j)
    → transition target at c j ≡ ok (changed target at c j)
unfolding transition
transition_permitted target at c j v a t w =
    ground (arith, post_init_of_IsValid (changed target at c j))

module _ (now : Option Datetime) (clock : Datetime) (j k : IngestionJob) (v : IsValid j) where
  abbrev at : Datetime
  at = or_default now clock

  -- A job starts only from the queue; the start counts one more attempt.
  pub start_returned :
      start now clock j ≡ ok k
      → (j.status ≡ IngestionJobStatus.queued)
        × (k.status ≡ running)
        × (k.attempt_count ≡ j.attempt_count +ℤ pos 1)
        × IsValid k
        × SameJob j k
  unfolding start job_allowed
  start_returned h = ground (
    arith,
    +ℤ_parts j.attempt_count (pos 1),
    transition_returned running at (starting at j) j k v,
  )

  pub succeed_returned :
      succeed now clock j ≡ ok k
      → (j.status ≡ running)
        × (k.status ≡ succeeded)
        × (k.attempt_count ≡ j.attempt_count)
        × IsValid k
        × SameJob j k
  unfolding succeed job_allowed
  succeed_returned h = ground (arith, transition_returned succeeded at (finishing at none j) j k v)

  pub fail_returned :
      (code : Text)
      → fail code now clock j ≡ ok k
      → ((j.status ≡ IngestionJobStatus.queued) ⊎ (j.status ≡ running))
        × (k.status ≡ IngestionJobStatus.failed)
        × (k.failure_code ≡ some code)
        × (k.attempt_count ≡ j.attempt_count)
        × IsValid k
        × SameJob j k
  unfolding fail job_allowed
  fail_returned code h = ground (
    arith,
    nonblank_code code,
    transition_returned IngestionJobStatus.failed at (finishing at (some code) j) j k v,
  )

  pub requeue_returned :
      requeue now clock j ≡ ok k
      → (j.status ≡ IngestionJobStatus.failed)
        × (k.status ≡ IngestionJobStatus.queued)
        × (k.attempt_count ≡ j.attempt_count)
        × IsValid k
        × SameJob j k
  unfolding requeue job_allowed
  requeue_returned h =
      ground (arith, transition_returned IngestionJobStatus.queued at requeueing j k v)
