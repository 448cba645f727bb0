-- ===== src/Domain/Document/History.antt =====
-- Sequences of calls on a document, from its creation on.
use mathlib.Core.Path.{subst}
use enterprise_knowledge_sea.Common.{
  ap, ◌∙◌, true, ◌≤◌, ◌≡◌, ◌⊎◌, inr, Option, none, some, Text, List, [], ◌∷◌, arith,
}
use enterprise_knowledge_sea.Status.{DocumentStatus, ready, deleting, document_allowed}
use enterprise_knowledge_sea.Errors.{Result, ok, ◌>>=◌, >>=-eq-ok}
use enterprise_knowledge_sea.Domain.Checks.{Datetime}
use enterprise_knowledge_sea.Domain.Document
use enterprise_knowledge_sea.Domain.Document.{Document, Upload, post_init, create, transition}
use enterprise_knowledge_sea.Domain.Document.Lifecycle.{IsValid, transition_returned}

-- The calls that change a document, with their arguments and the clock that they would read.
pub data Event : Type 0 where
  queue start_processing mark_ready mark_deleting : Option Datetime → Datetime → Event
  mark_failed : Text → Option Datetime → Datetime → Event

unfoldable pub apply : Event → Document → Result Document
apply (queue now clock) d = Document.queue now clock d
apply (start_processing now clock) d = Document.start_processing now clock d
apply (mark_ready now clock) d = Document.mark_ready now clock d
apply (mark_deleting now clock) d = Document.mark_deleting now clock d
apply (mark_failed code now clock) d = Document.mark_failed code now clock d

-- The calls one after the other, up to the first that raises.
unfoldable pub run : List Event → Document → Result Document
run [] d = ok d
run (event ∷ events) d = apply event d >>= run events

-- What no call changes, and the clock that none turns back.
pub record SameDocument (d e : Document) : Type 0 where
  pub id : e.id ≡ d.id
  pub original_filename : e.original_filename ≡ d.original_filename
  pub storage_key : e.storage_key ≡ d.storage_key
  pub media_type : e.media_type ≡ d.media_type
  pub sha256 : e.sha256 ≡ d.sha256
  pub size_bytes : e.size_bytes ≡ d.size_bytes
  pub created_at : e.created_at ≡ d.created_at
  pub updated_at : d.updated_at.instant ≤ e.updated_at.instant

pub apply_step :
    (event : Event) (d e : Document)
    → IsValid d
    → apply event d ≡ ok e
    → IsValid e × SameDocument d e × (document_allowed d.status e.status ≡ true)
unfolding apply Document.queue Document.start_processing Document.mark_ready Document.mark_failed
    Document.mark_deleting
apply_step (queue now clock) d e v h =
    ground (arith, transition_returned DocumentStatus.queued now none clock d v e)
apply_step (start_processing now clock) d e v h =
    ground (arith, transition_returned DocumentStatus.processing now none clock d v e)
apply_step (mark_ready now clock) d e v h =
    ground (arith, transition_returned ready now none clock d v e)
apply_step (mark_deleting now clock) d e v h =
    ground (arith, transition_returned deleting now none clock d v e)
apply_step (mark_failed code now clock) d e v h =
    ground (arith, transition_returned DocumentStatus.failed now (some code) clock d v e)

SameDocument-trans : (d e f : Document) → SameDocument d e → SameDocument e f → SameDocument d f
SameDocument-trans d e f a b = ground arith

-- Any sequence of calls keeps a valid document valid, keeps its identity and its content fields, and does not
-- move its update time back.
pub run-IsValid :
    (events : List Event) (d e : Document)
    → IsValid d
    → run events d ≡ ok e
    → IsValid e × SameDocument d e
unfolding run
run-IsValid [] d e v h = ground arith
run-IsValid (event ∷ events) d e v h =
    let (m, first, rest) = >>=-eq-ok (apply event d) (run events) h in
    let (vm, dm, _) = apply_step event d m v first in
    let (ve, me) = run-IsValid events m e vm rest in (ve, SameDocument-trans d m e dm me)

-- A document that is being deleted changes no more.
run_final :
    (events : List Event) (d e : Document)
    → IsValid d
    → d.status ≡ deleting
    → run events d ≡ ok e
    → e ≡ d
unfolding run document_allowed
run_final [] d e v s h = ground arith
run_final (event ∷ events) d e v s h =
    let (m, first, rest) = >>=-eq-ok (apply event d) (run events) h in
    let (vm, dm, allowed) = apply_step event d m v first in ground arith

from_ready : (t : DocumentStatus) → document_allowed ready t ≡ true → t ≡ deleting
unfolding document_allowed
from_ready t h = ground arith

-- Once a document is ready, every sequence of calls that returns leaves it ready or deleting: it is never processed
-- again, and no later failure can be recorded on it.
pub run_ready :
    (events : List Event) (d e : Document)
    → IsValid d
    → d.status ≡ ready
    → run events d ≡ ok e
    → (e.status ≡ ready) ⊎ (e.status ≡ deleting)
unfolding run document_allowed
run_ready [] d e v s h = ground arith
run_ready (event ∷ events) d e v s h =
    let (m, first, rest) = >>=-eq-ok (apply event d) (run events) h in
    let (vm, dm, allowed) = apply_step event d m v first in
    let at_m : m.status ≡ deleting =
      from_ready m.status (subst (λ t. document_allowed t m.status ≡ true) s allowed) in
    inr (ap (λ (x : Document). x.status) (run_final events m e vm at_m rest) ∙ at_m)
