-- ===== src/Domain/Document/Lifecycle.antt =====
-- What the transitions of `Document` keep and change, one at a time and over any sequence.
use enterprise_knowledge_sea.Common.{
  true, false, ◌≤◌, ◌≡◌, Option, none, Text, blank, pos, ◌≤ℤ◌, or_default, arith,
}
use enterprise_knowledge_sea.Status.{DocumentStatus, document_status_eq, document_allowed}
use enterprise_knowledge_sea.Errors.{ok}
use enterprise_knowledge_sea.Domain.Checks.{Datetime, earlier, is_sha256, missing_code}
use enterprise_knowledge_sea.Domain.Document.{Document, post_init, transition}

-- The invariant that `__post_init__` checks.
pub record IsValid (d : Document) : Type 0 where
  pub filename : blank d.original_filename ≡ false
  pub key : blank d.storage_key ≡ false
  pub hash : is_sha256 d.sha256 ≡ true
  pub size : pos 0 ≤ℤ d.size_bytes
  pub created_aware : d.created_at.aware ≡ true
  pub updated_aware : d.updated_at.aware ≡ true
  pub ordered : d.created_at.instant ≤ d.updated_at.instant
  pub coded :
      document_status_eq d.status DocumentStatus.failed ≡ true → missing_code d.failure_code ≡ false
  pub uncoded : document_status_eq d.status DocumentStatus.failed ≡ false → d.failure_code ≡ none

pub IsValid-post_init : (d d' : Document) → post_init d ≡ ok d' → IsValid d × (d' ≡ d)
unfolding post_init earlier
IsValid-post_init d d' h = ground arith

pub post_init_of_IsValid : (d : Document) → IsValid d → post_init d ≡ ok d
unfolding post_init earlier
post_init_of_IsValid d v = ground arith

-- What a transition writes.
abbrev pub moved : DocumentStatus → Datetime → Option Text → Document → Document
moved target at code d = record d { status = target; updated_at = at; failure_code = code }

-- When a transition of a valid document goes through.
pub record IsPermitted (target : DocumentStatus) (at : Datetime) (code : Option Text) (d : Document)
    : Type 0 where
  pub allowed : document_allowed d.status target ≡ true
  pub aware : at.aware ≡ true
  pub later : d.updated_at.instant ≤ at.instant
  pub coded : document_status_eq target DocumentStatus.failed ≡ true → missing_code code ≡ false
  pub uncoded : document_status_eq target DocumentStatus.failed ≡ false → code ≡ none

module _ (target : DocumentStatus) (now : Option Datetime) (code : Option Text) (clock : Datetime)
    (d : Document) (v : IsValid d) where
  moved-IsValid :
      IsPermitted target (or_default now clock) code d
      → IsValid (moved target (or_default now clock) code d)
  moved-IsValid p = record {
    filename = v.filename;
    key = v.key;
    hash = v.hash;
    size = v.size;
    created_aware = v.created_aware;
    updated_aware = p.aware;
    ordered = omega (arith, v.ordered, p.later);
    coded = p.coded;
    uncoded = p.uncoded;
  }

  -- A permitted transition of a valid document returns it with status, time and code replaced.
  pub transition_permitted :
      IsPermitted target (or_default now clock) code d
      → transition target now code clock d ≡ ok (moved target (or_default now clock) code d)
  unfolding transition
  transition_permitted p =
      ground
        (arith, post_init_of_IsValid (moved target (or_default now clock) code d) (moved-IsValid p))

  -- Whatever a transition of a valid document returns, it was permitted, and what it returned is
  -- the document with status, time and code replaced, and is valid.
  pub transition_returned :
      (d' : Document)
      → transition target now code clock d ≡ ok d'
      → IsPermitted target (or_default now clock) code d
        × (d' ≡ moved target (or_default now clock) code d)
        × IsValid d'
  unfolding transition
  transition_returned d' h =
      ground (arith, IsValid-post_init (moved target (or_default now clock) code d) d')
