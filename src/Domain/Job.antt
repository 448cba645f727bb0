-- ===== src/Domain/Job.antt =====
-- class IngestionJob of knowledge_search/domain/documents.py.
pub mod Lifecycle
pub mod History
use enterprise_knowledge_sea.Common.{
  ℕ, Bool, true, false, ◌&&◌, ◌||◌, not, Option, none, some, Text, blank, ℤ, pos, ltb_ℤ, ◌+ℤ◌,
  or_default,
}
use enterprise_knowledge_sea.Status.{
  IngestionJobStatus, running, succeeded, job_status_eq, job_allowed,
}
use enterprise_knowledge_sea.Errors.{
  Result, ok, Violation, raise_if, forbid, ◌>>=◌, ◌>>◌, invalid_state_transition,
  negative_attempt_count, naive_created_at, naive_updated_at, naive_started_at, naive_finished_at,
  updated_before_created, started_before_created, finished_before_created, finished_before_started,
  running_without_start, finished_without_time, failed_without_code, code_without_failure,
  blank_failure_code, time_moved_backwards,
}
use enterprise_knowledge_sea.Domain.Checks.{
  Datetime, earlier, validate_timestamp, missing_code, is_some,
}

pub record IngestionJob : Type 0 where
  pub id : ℕ
  pub document_id : ℕ
  pub status : IngestionJobStatus
  pub attempt_count : ℤ
  pub created_at : Datetime
  pub updated_at : Datetime
  pub started_at : Option Datetime
  pub finished_at : Option Datetime
  pub failure_code : Option Text

-- `if value is not None: _validate_timestamp(value, message)`
validate_optional : Option Datetime → Violation → Result (Unit {0})
unfolding validate_timestamp
validate_optional none message = ok tt
validate_optional (some t) message = validate_timestamp t message

-- `a is not None and b is not None and a < b`
both_earlier : Option Datetime → Option Datetime → Result Bool
unfolding earlier
both_earlier (some a) (some b) = earlier a b
both_earlier _ _ = ok false

-- `__post_init__`
unfoldable pub post_init : IngestionJob → Result IngestionJob
unfolding validate_timestamp validate_optional both_earlier earlier job_status_eq
post_init j = do
  forbid (ltb_ℤ j.attempt_count (pos 0)) negative_attempt_count
  validate_timestamp j.created_at naive_created_at
  validate_timestamp j.updated_at naive_updated_at
  backwards ← earlier j.updated_at j.created_at
  forbid backwards updated_before_created
  validate_optional j.started_at naive_started_at
  validate_optional j.finished_at naive_finished_at
  early_start ← both_earlier j.started_at (some j.created_at)
  forbid early_start started_before_created
  early_finish ← both_earlier j.finished_at (some j.created_at)
  forbid early_finish finished_before_created
  inverted ← both_earlier j.finished_at j.started_at
  forbid inverted finished_before_started
  forbid (job_status_eq j.status running && not (is_some j.started_at)) running_without_start
  forbid
      ((job_status_eq j.status succeeded || job_status_eq j.status IngestionJobStatus.failed)
        && not (is_some j.finished_at))
      finished_without_time
  forbid (job_status_eq j.status IngestionJobStatus.failed && missing_code j.failure_code)
      failed_without_code
  forbid (not (job_status_eq j.status IngestionJobStatus.failed) && is_some j.failure_code)
      code_without_failure
  ok j

unfoldable pub create :
    (document_id : ℕ) (job_id : Option ℕ) (now : Option Datetime) (fresh : ℕ) (clock : Datetime)
    → Result IngestionJob
create document_id job_id now fresh clock =
    let timestamp = or_default now clock in
    post_init (record {
      id = or_default job_id fresh;
      document_id = document_id;
      status = IngestionJobStatus.queued;
      attempt_count = pos 0;
      created_at = timestamp;
      updated_at = timestamp;
      started_at = none;
      finished_at = none;
      failure_code = none;
    })

-- the keyword arguments of `_transition`
pub record Change : Type 0 where
  pub attempt_count : Option ℤ
  pub started_at : Option Datetime
  pub finished_at : Option Datetime
  pub failure_code : Option Text

-- `_transition`
unfoldable pub transition :
    IngestionJobStatus → Datetime → Change → IngestionJob → Result IngestionJob
unfolding earlier
transition target now c j = do
  raise_if (not (job_allowed j.status target)) invalid_state_transition
  backwards ← earlier now j.updated_at
  forbid backwards time_moved_backwards
  post_init (record j {
    status = target;
    attempt_count = or_default c.attempt_count j.attempt_count;
    updated_at = now;
    started_at = c.started_at;
    finished_at = c.finished_at;
    failure_code = c.failure_code;
  })

-- The arguments that each public method passes to `_transition`.
abbrev pub starting : Datetime → IngestionJob → Change
starting at j = record {
  attempt_count = some (j.attempt_count +ℤ pos 1);
  started_at = some at;
  finished_at = none;
  failure_code = none;
}

abbrev pub finishing : Datetime → Option Text → IngestionJob → Change
finishing at code j = record {
  attempt_count = none;
  started_at = j.started_at;
  finished_at = some at;
  failure_code = code;
}

abbrev pub requeueing : Change
requeueing = record {
  attempt_count = none;
  started_at = none;
  finished_at = none;
  failure_code = none;
}

unfoldable pub start : Option Datetime → Datetime → IngestionJob → Result IngestionJob
start now clock j = let at = or_default now clock in transition running at (starting at j) j

unfoldable pub succeed : Option Datetime → Datetime → IngestionJob → Result IngestionJob
succeed now clock j =
    let at = or_default now clock in transition succeeded at (finishing at none j) j

unfoldable pub fail : Text → Option Datetime → Datetime → IngestionJob → Result IngestionJob
fail failure_code now clock j = do
  forbid (blank failure_code) blank_failure_code
  let at = or_default now clock
  transition IngestionJobStatus.failed at (finishing at (some failure_code) j) j

unfoldable pub requeue : Option Datetime → Datetime → IngestionJob → Result IngestionJob
requeue now clock = transition IngestionJobStatus.queued (or_default now clock) requeueing
