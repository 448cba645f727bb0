-- ===== src/Status.antt =====
-- The enumerations of knowledge_search/domain/documents.py and their transition tables.
use enterprise_knowledge_sea.Common.{
  Bool, true, false, ◌||◌, List, [], ◌∷◌, Text, codes, Option, none, some, text_eq, if◌then◌else◌,
}

pub data DocumentMediaType : Type 0 where
  pdf markdown text : DocumentMediaType

pub data DocumentStatus : Type 0 where
  uploaded queued processing ready failed deleting : DocumentStatus

pub data IngestionJobStatus : Type 0 where
  queued running succeeded failed : IngestionJobStatus

-- `a is b` on the members of each enumeration.
unfoldable pub document_status_eq : DocumentStatus → DocumentStatus → Bool
document_status_eq uploaded uploaded = true
document_status_eq DocumentStatus.queued DocumentStatus.queued = true
document_status_eq processing processing = true
document_status_eq ready ready = true
document_status_eq DocumentStatus.failed DocumentStatus.failed = true
document_status_eq deleting deleting = true
document_status_eq _ _ = false

unfoldable pub job_status_eq : IngestionJobStatus → IngestionJobStatus → Bool
job_status_eq IngestionJobStatus.queued IngestionJobStatus.queued = true
job_status_eq running running = true
job_status_eq succeeded succeeded = true
job_status_eq IngestionJobStatus.failed IngestionJobStatus.failed = true
job_status_eq _ _ = false

-- `DOCUMENT_TRANSITIONS`
unfoldable pub document_transitions : DocumentStatus → List DocumentStatus
document_transitions uploaded = DocumentStatus.queued ∷ []
document_transitions DocumentStatus.queued = processing ∷ DocumentStatus.failed ∷ []
document_transitions processing = ready ∷ DocumentStatus.failed ∷ []
document_transitions ready = deleting ∷ []
document_transitions DocumentStatus.failed = DocumentStatus.queued ∷ deleting ∷ []
document_transitions deleting = []

-- `JOB_TRANSITIONS`
unfoldable pub job_transitions : IngestionJobStatus → List IngestionJobStatus
job_transitions IngestionJobStatus.queued = running ∷ IngestionJobStatus.failed ∷ []
job_transitions running = succeeded ∷ IngestionJobStatus.failed ∷ []
job_transitions succeeded = []
job_transitions IngestionJobStatus.failed = IngestionJobStatus.queued ∷ []

-- `target in transitions`
abbrev any_eq : {A : Type 0} → (A → A → Bool) → A → List A → Bool
any_eq eq a [] = false
any_eq eq a (b ∷ rest) = eq a b || any_eq eq a rest

unfoldable pub document_allowed : DocumentStatus → DocumentStatus → Bool
unfolding document_transitions document_status_eq
document_allowed status target = any_eq document_status_eq target (document_transitions status)

unfoldable pub job_allowed : IngestionJobStatus → IngestionJobStatus → Bool
unfolding job_transitions job_status_eq
job_allowed status target = any_eq job_status_eq target (job_transitions status)

-- The values that are stored: `status.value`, `media_type.value`.
unfoldable pub document_status_value : DocumentStatus → Text
document_status_value uploaded = codes "uploaded"
document_status_value DocumentStatus.queued = codes "queued"
document_status_value processing = codes "processing"
document_status_value ready = codes "ready"
document_status_value DocumentStatus.failed = codes "failed"
document_status_value deleting = codes "deleting"

unfoldable pub job_status_value : IngestionJobStatus → Text
job_status_value IngestionJobStatus.queued = codes "queued"
job_status_value running = codes "running"
job_status_value succeeded = codes "succeeded"
job_status_value IngestionJobStatus.failed = codes "failed"

unfoldable pub media_type_value : DocumentMediaType → Text
media_type_value pdf = codes "application/pdf"
media_type_value markdown = codes "text/markdown"
media_type_value text = codes "text/plain"

-- `Enum(value)`: the member with that value, or `none` for the `ValueError`.
abbrev first_with : {A : Type 0} → (A → Text) → Text → List A → Option A
first_with value v [] = none
first_with value v (a ∷ rest) = if text_eq v (value a) then some a else first_with value v rest

unfoldable pub document_status_of_value : Text → Option DocumentStatus
unfolding document_status_value text_eq
document_status_of_value v =
    first_with document_status_value v (
      uploaded ∷ DocumentStatus.queued ∷ processing ∷ ready ∷ DocumentStatus.failed ∷ deleting ∷ [])

unfoldable pub job_status_of_value : Text → Option IngestionJobStatus
unfolding job_status_value text_eq
job_status_of_value v =
    first_with job_status_value v
      (IngestionJobStatus.queued ∷ running ∷ succeeded ∷ IngestionJobStatus.failed ∷ [])

unfoldable pub media_type_of_value : Text → Option DocumentMediaType
unfolding media_type_value text_eq
media_type_of_value v = first_with media_type_value v (pdf ∷ markdown ∷ text ∷ [])
