-- ===== src/Domain/Document.antt =====
-- class Document of knowledge_search/domain/documents.py. `clock` is the reading of `_utc_now()`
-- that a call would make, `fresh` the value that `uuid4()` would give.
pub mod Lifecycle
pub mod History
use enterprise_knowledge_sea.Common.{
  ℕ, Bool, true, false, ◌&&◌, not, Option, none, some, Text, blank, ℤ, pos, ltb_ℤ, or_default,
}
use enterprise_knowledge_sea.Status.{
  DocumentMediaType, DocumentStatus, uploaded, processing, ready, deleting, document_status_eq,
  document_allowed,
}
use enterprise_knowledge_sea.Errors.{
  Result, ok, err, raise_if, forbid, ◌>>=◌, ◌>>◌, invalid_state_transition, blank_filename,
  blank_storage_key, negative_size, naive_created_at, naive_updated_at, updated_before_created,
  failed_without_code, code_without_failure, blank_failure_code, time_moved_backwards,
}
use enterprise_knowledge_sea.Domain.Checks.{
  Datetime, earlier, validate_sha256, validate_timestamp, missing_code, is_some,
}

pub record Document : Type 0 where
  pub id : ℕ
  pub original_filename : Text
  pub storage_key : Text
  pub media_type : DocumentMediaType
  pub sha256 : Text
  pub size_bytes : ℤ
  pub status : DocumentStatus
  pub created_at : Datetime
  pub updated_at : Datetime
  pub failure_code : Option Text

-- `__post_init__`
unfoldable pub post_init : Document → Result Document
unfolding validate_sha256 validate_timestamp
post_init d = do
  forbid (blank d.original_filename) blank_filename
  forbid (blank d.storage_key) blank_storage_key
  validate_sha256 d.sha256
  forbid (ltb_ℤ d.size_bytes (pos 0)) negative_size
  validate_timestamp d.created_at naive_created_at
  validate_timestamp d.updated_at naive_updated_at
  backwards ← earlier d.updated_at d.created_at
  forbid backwards updated_before_created
  forbid (document_status_eq d.status DocumentStatus.failed && missing_code d.failure_code)
      failed_without_code
  forbid (not (document_status_eq d.status DocumentStatus.failed) && is_some d.failure_code)
      code_without_failure
  ok d

-- the keyword arguments of `create`
pub record Upload : Type 0 where
  pub original_filename : Text
  pub storage_key : Text
  pub media_type : DocumentMediaType
  pub sha256 : Text
  pub size_bytes : ℤ

unfoldable pub create : Upload → Option ℕ → Option Datetime → ℕ → Datetime → Result Document
create u document_id now fresh clock =
    let timestamp = or_default now clock in
    post_init (record {
      id = or_default document_id fresh;
      original_filename = u.original_filename;
      storage_key = u.storage_key;
      media_type = u.media_type;
      sha256 = u.sha256;
      size_bytes = u.size_bytes;
      status = uploaded;
      created_at = timestamp;
      updated_at = timestamp;
      failure_code = none;
    })

-- `_transition`: `replace` builds a new value, so `__post_init__` runs again.
unfoldable pub transition :
    DocumentStatus → Option Datetime → Option Text → Datetime → Document → Result Document
unfolding earlier
transition target now failure_code clock d = do
  raise_if (not (document_allowed d.status target)) invalid_state_transition
  let timestamp = or_default now clock
  backwards ← earlier timestamp d.updated_at
  forbid backwards time_moved_backwards
  post_init (record d { status = target; updated_at = timestamp; failure_code = failure_code })

unfoldable pub queue : Option Datetime → Datetime → Document → Result Document
unfolding transition
queue now clock = transition DocumentStatus.queued now none clock

unfoldable pub start_processing : Option Datetime → Datetime → Document → Result Document
unfolding transition
start_processing now clock = transition processing now none clock

unfoldable pub mark_ready : Option Datetime → Datetime → Document → Result Document
unfolding transition
mark_ready now clock = transition ready now none clock

unfoldable pub mark_failed : Text → Option Datetime → Datetime → Document → Result Document
unfolding transition
mark_failed failure_code now clock d = do
  forbid (blank failure_code) blank_failure_code
  transition DocumentStatus.failed now (some failure_code) clock d

unfoldable pub mark_deleting : Option Datetime → Datetime → Document → Result Document
unfolding transition
mark_deleting now clock = transition deleting now none clock
