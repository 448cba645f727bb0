-- ===== src/Domain/Job/History.antt =====
-- Sequences of calls on an ingestion job, from its creation on.
use enterprise_knowledge_sea.Common.{
  ℕ, ◌+◌, ◌≡◌, ap, ◌∙◌, Option, Text, List, [], ◌∷◌, ℤ, pos, ◌+ℤ◌, int_laws, arith,
}
use enterprise_knowledge_sea.Status.{IngestionJobStatus}
use enterprise_knowledge_sea.Errors.{Result, ok, ◌>>=◌, >>=-eq-ok}
use enterprise_knowledge_sea.Domain.Checks.{Datetime}
use enterprise_knowledge_sea.Domain.Job
use enterprise_knowledge_sea.Domain.Job.{IngestionJob, post_init, create}
use enterprise_knowledge_sea.Domain.Job.Lifecycle.{
  IsValid, SameJob, start_returned, succeed_returned, fail_returned, requeue_returned,
}

-- The calls that change a job, with their arguments and the clock that they would read.
pub data Event : Type 0 where
  start succeed requeue : Option Datetime → Datetime → Event
  fail : Text → Option Datetime → Datetime → Event

unfoldable pub apply : Event → IngestionJob → Result IngestionJob
apply (start now clock) j = Job.start now clock j
apply (succeed now clock) j = Job.succeed now clock j
apply (requeue now clock) j = Job.requeue now clock j
apply (fail code now clock) j = Job.fail code now clock j

-- The calls one after the other, up to the first that raises.
unfoldable pub run : List Event → IngestionJob → Result IngestionJob
run [] j = ok j
run (event ∷ events) j = apply event j >>= run events

-- How many attempts an event counts, and a sequence.
abbrev pub attempts_of : Event → ℕ
attempts_of (start now clock) = 1
attempts_of _ = 0

abbrev pub starts : List Event → ℕ
starts [] = 0
starts (event ∷ events) = attempts_of event + starts events

+ℤ_zero : (a : ℤ) → a +ℤ pos 0 ≡ a
+ℤ_zero a = omega int_laws

apply_step :
    (event : Event) (j k : IngestionJob)
    → IsValid j
    → apply event j ≡ ok k
    → IsValid k × SameJob j k × (k.attempt_count ≡ j.attempt_count +ℤ pos (attempts_of event))
unfolding apply
apply_step (start now clock) j k v h =
    let (_, _, count, vk, same) = start_returned now clock j k v h in (vk, same, count)
apply_step (succeed now clock) j k v h =
    let (_, _, count, vk, same) = succeed_returned now clock j k v h in (vk, same, rw +ℤ_zero count)
apply_step (requeue now clock) j k v h =
    let (_, _, count, vk, same) = requeue_returned now clock j k v h in (vk, same, rw +ℤ_zero count)
apply_step (fail code now clock) j k v h =
    let (_, _, _, count, vk, same) = fail_returned now clock j k v code h in
    (vk, same, rw +ℤ_zero count)

SameJob-trans : (j k l : IngestionJob) → SameJob j k → SameJob k l → SameJob j l
SameJob-trans j k l a b = ground arith

add_starts : (a : ℤ) (m n : ℕ) → a +ℤ pos m +ℤ pos n ≡ a +ℤ pos (m + n)
add_starts a m n = omega int_laws

-- Any sequence of calls on a valid job that returns leaves a valid job with the same identity,
-- whose attempt count has grown by the number of starts in the sequence.
pub run_attempts :
    (events : List Event) (j k : IngestionJob)
    → IsValid j
    → run events j ≡ ok k
    → IsValid k × SameJob j k × (k.attempt_count ≡ j.attempt_count +ℤ pos (starts events))
unfolding run
run_attempts [] j k v h = ground (arith, +ℤ_zero j.attempt_count)
run_attempts (event ∷ events) j k v h =
    let (m, first, rest) = >>=-eq-ok (apply event j) (run events) h in
    let (vm, jm, one_more) = apply_step event j m v first in
    let (vk, mk, more) = run_attempts events m k vm rest in
    (
      vk,
      SameJob-trans j m k jm mk,
      more
          ∙ ap (λ a. a +ℤ pos (starts events)) one_more
          ∙ add_starts j.attempt_count (attempts_of event) (starts events),
    )

-- A job that was created with an aware timestamp is valid, queued and has no attempt.
pub create-IsValid :
    (document_id : ℕ) (job_id : Option ℕ) (now : Option Datetime) (fresh : ℕ) (clock : Datetime)
    (j : IngestionJob)
    → create document_id job_id now fresh clock ≡ ok j
    → IsValid j
      × (j.status ≡ IngestionJobStatus.queued)
      × (j.attempt_count ≡ pos 0)
      × (j.document_id ≡ document_id)
unfolding create post_init
create-IsValid document_id job_id now fresh clock j h = ground arith
