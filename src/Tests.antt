-- ===== src/Tests.antt =====
-- Concrete data for the tests, and a platform that stands in for Python's standard library.
pub mod Pipeline
pub mod Domain
pub mod Retrieval
pub mod Processor
pub mod Documents
pub mod Providers
pub mod Generation
pub mod Schema
pub mod Evaluation
pub mod Extraction
pub mod Files
pub mod System
pub mod Problems
use enterprise_knowledge_sea.Common.{
  ℕ, zero, suc, Bool, true, false, ◌≡◌, refl, ◌&&◌, ◌||◌, leb, ◌==◌, Option, none, some, Text,
  codes, List, [], ◌∷◌, ℤ, pos, negsuc, arith, is_space, ap, length, ◌≤◌, blank, strip,
}
use enterprise_knowledge_sea.Platform.{Platform, PlatformLaws, contains}
use enterprise_knowledge_sea.Status.{
  DocumentStatus, uploaded, markdown, IngestionJobStatus, running, document_status_eq,
}
use enterprise_knowledge_sea.Errors.{Result, ok}
use enterprise_knowledge_sea.Domain.Checks.{Datetime, is_sha256, earlier}
use enterprise_knowledge_sea.Domain.Document
use enterprise_knowledge_sea.Domain.Document.{Document}
use enterprise_knowledge_sea.Domain.Document.Lifecycle as DocumentLifecycle
use enterprise_knowledge_sea.Domain.Job.{IngestionJob}
use enterprise_knowledge_sea.Domain.Job.Lifecycle as JobLifecycle

-- A-Z, a-z, 0-9 and the underscore
abbrev ascii_word : ℕ → Bool
ascii_word c =
    (leb b'0' c && leb c b'9')
    || (leb b'A' c && leb c b'Z')
    || (leb b'a' c && leb c b'z')
    || c == b'_'

abbrev repeated : ℕ → ℕ → Text
repeated c zero = []
repeated c (suc n) = c ∷ repeated c n

abbrev pub zeros : Text
zeros = repeated b'0' 64

abbrev unary : ℤ → Text
unary (pos n) = repeated b'1' n
unary (negsuc n) = b'-' ∷ repeated b'1' n

abbrev pub platform : Platform
platform = record {
  is_word = ascii_word;
  nfc = λ t. t;
  sha256_hex = λ t. zeros;
  uuid5 = λ space name. length name;
  uuid_text = repeated b'0';
  int_text = unary;
}

ascii_word_not_space : (c : ℕ) → ascii_word c ≡ true → is_space c ≡ false
unfolding is_space
ascii_word_not_space c h = ground arith

repeated-no_colon : (c n : ℕ) → (c == b':') ≡ false → contains b':' (repeated c n) ≡ false
repeated-no_colon c zero h = refl
repeated-no_colon c (suc n) h = ground (arith, repeated-no_colon c n h)

length-repeated : (c n : ℕ) → length (repeated c n) ≡ n
length-repeated c zero = refl
length-repeated c (suc n) = ap suc (length-repeated c n)

repeated-injective : (c m n : ℕ) → repeated c m ≡ repeated c n → m ≡ n
repeated-injective c m n e = ground (arith, length-repeated c m, length-repeated c n, ap length e)

unary-no_colon : (n : ℤ) → contains b':' (unary n) ≡ false
unary-no_colon (pos n) = repeated-no_colon b'1' n refl
unary-no_colon (negsuc n) = ground (arith, repeated-no_colon b'1' n refl)

unary-injective : (m n : ℤ) → unary m ≡ unary n → m ≡ n
unary-injective (pos m) (pos n) e = ap pos (repeated-injective b'1' m n e)
unary-injective (negsuc m) (negsuc n) e =
    ground (arith, length-repeated b'1' m, length-repeated b'1' n, ap length e)
unary-injective (pos zero) (negsuc n) e = ground arith
unary-injective (pos (suc m)) (negsuc n) e = ground arith
unary-injective (negsuc m) (pos zero) e = ground arith
unary-injective (negsuc m) (pos (suc n)) e = ground arith

pub platform_laws : PlatformLaws platform
unfolding is_sha256
platform_laws = record {
  word_not_space = ascii_word_not_space;
  sha256_hex-is_sha256 = λ t. refl;
  uuid_text-no_colon = λ u. repeated-no_colon b'0' u refl;
  int_text-no_colon = unary-no_colon;
  uuid_text-injective = repeated-injective b'0';
  int_text-injective = unary-injective;
}

-- a reading of the clock
abbrev pub at : ℕ → Datetime
at n = record { aware = true; instant = n }

-- A document and its job at a status, last changed at a time.
abbrev pub document : DocumentStatus → ℕ → Option Text → Document
document status time code = record {
  id = 5;
  original_filename = codes "notes.md";
  storage_key = codes "documents/5.md";
  media_type = markdown;
  sha256 = zeros;
  size_bytes = pos 40;
  status = status;
  created_at = at 1;
  updated_at = at time;
  failure_code = code;
}

abbrev pub waiting_job : IngestionJob
waiting_job = record {
  id = 6;
  document_id = 5;
  status = IngestionJobStatus.queued;
  attempt_count = pos 0;
  created_at = at 1;
  updated_at = at 1;
  started_at = none;
  finished_at = none;
  failure_code = none;
}

abbrev pub running_job : IngestionJob
running_job = record {
  id = 6;
  document_id = 5;
  status = running;
  attempt_count = pos 1;
  created_at = at 1;
  updated_at = at 3;
  started_at = some (at 3);
  finished_at = none;
  failure_code = none;
}

document_checked : Document.post_init (document uploaded 1 none) ≡ ok (document uploaded 1 none)
unfolding Document.post_init is_sha256 blank strip is_space earlier document_status_eq
document_checked = refl

-- A change of status and time with no code keeps a document valid.
pub document-IsValid :
    (s : DocumentStatus) (time : ℕ)
    → document_status_eq s DocumentStatus.failed ≡ false
    → 1 ≤ time
    → DocumentLifecycle.IsValid (document s time none)
document-IsValid s time e l =
    let v = (DocumentLifecycle.IsValid-post_init _ _ document_checked).0 in
    record {
      filename = v.filename;
      key = v.key;
      hash = v.hash;
      size = v.size;
      created_aware = refl;
      updated_aware = refl;
      ordered = l;
      coded = λ f. ground arith;
      uncoded = λ f. refl;
    }

pub waiting_job-IsValid : JobLifecycle.IsValid waiting_job
waiting_job-IsValid = record {
  attempts = omega arith;
  created_aware = refl;
  updated_aware = refl;
  ordered = omega arith;
  started = tt;
  finished = tt;
  timeline = tt;
  shape = (refl, refl, refl);
}

pub running_job-IsValid : JobLifecycle.IsValid running_job
running_job-IsValid = record {
  attempts = omega arith;
  created_aware = refl;
  updated_aware = refl;
  ordered = omega arith;
  started = (refl, omega arith, omega arith);
  finished = tt;
  timeline = tt;
  shape = (refl, refl);
}
