-- ===== src/Domain/Checks.antt =====
-- The validators of knowledge_search/domain/documents.py that its classes share. An instant
-- counts microseconds; a datetime with no time zone (`aware` false) keeps its own reading.
use enterprise_knowledge_sea.Common.{
  ℕ, Bool, true, false, ◌&&◌, ◌||◌, not, Option, none, some, [], ◌∷◌, Text, leb, ltb, ◌==◌, length,
  if◌then◌else◌,
}
use enterprise_knowledge_sea.Errors.{Result, ok, err, type_error, Violation, sha256_format, forbid}

pub record Datetime : Type 0 where
  pub aware : Bool
  pub instant : ℕ

-- `a < b` of two datetimes: Python refuses to compare an aware one with a naive one.
unfoldable pub earlier : Datetime → Datetime → Result Bool
earlier a b =
    if a.aware
    then (if b.aware then ok (ltb a.instant b.instant) else err type_error)
    else (if b.aware then err type_error else ok (ltb a.instant b.instant))

unfoldable pub is_hex : ℕ → Bool
is_hex c = (leb b'0' c && leb c b'9') || (leb b'a' c && leb c b'f')

unfoldable pub all_hex : Text → Bool
unfolding is_hex
all_hex [] = true
all_hex (c ∷ s) = is_hex c && all_hex s

-- `SHA256_PATTERN.fullmatch(value) is not None`
unfoldable pub is_sha256 : Text → Bool
unfolding all_hex
is_sha256 value = length value == 64 && all_hex value

unfoldable pub validate_sha256 : Text → Result (Unit {0})
validate_sha256 value = forbid (not (is_sha256 value)) sha256_format

unfoldable pub validate_timestamp : Datetime → Violation → Result (Unit {0})
validate_timestamp value message = forbid (not value.aware) message

-- `not code`, for a `str | None`
abbrev pub missing_code : Option Text → Bool
missing_code none = true
missing_code (some []) = true
missing_code (some (c ∷ s)) = false

-- `value is not None`
abbrev pub is_some {ℓ} : {A : Type ℓ} → Option A → Bool
is_some none = false
is_some (some a) = true
