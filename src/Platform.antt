-- ===== src/Platform.antt =====
-- What the program takes from Python's standard library and does not implement: the Unicode
-- class `\w` of `re`, NFC, SHA-256, UUIDs and the decimal text of an integer.
use enterprise_knowledge_sea.Common.{
  ℕ, Bool, true, false, ◌≡◌, Text, [], ◌∷◌, ◌==◌, ◌||◌, ◌&&◌, not, leb, ltb, ℤ, is_space,
}
use enterprise_knowledge_sea.Domain.Checks.{is_sha256}

pub record Platform : Type 0 where
  -- `\w` matches the character
  pub is_word : ℕ → Bool
  -- `unicodedata.normalize("NFC", text)`
  pub nfc : Text → Text
  -- `hashlib.sha256(text.encode("utf-8")).hexdigest()`, of a text that UTF-8 encodes
  pub sha256_hex : Text → Text
  -- `uuid5(namespace, name)`
  pub uuid5 : ℕ → Text → ℕ
  -- `str` of a UUID, and of an integer
  pub uuid_text : ℕ → Text
  pub int_text : ℤ → Text

-- `char in text`
abbrev pub contains : ℕ → Text → Bool
contains c [] = false
contains c (d ∷ s) = c == d || contains c s

-- whether the code point is a surrogate, which UTF-8 does not encode
unfoldable pub surrogate : ℕ → Bool
surrogate c = leb 0xd800 c && ltb c 0xe000

-- whether `encode("utf-8")` returns
unfoldable pub encodable : Text → Bool
encodable [] = true
encodable (c ∷ text) = not (surrogate c) && encodable text

-- What is documented of it: `\w` holds alphanumerics and `_`, no white space; a SHA-256 digest
-- has 64 lowercase hexadecimal digits; the texts of UUIDs and integers determine them and are
-- made of hexadecimal digits and dashes.
pub record PlatformLaws (p : Platform) : Type 0 where
  pub word_not_space : (c : ℕ) → p.is_word c ≡ true → is_space c ≡ false
  pub sha256_hex-is_sha256 : (t : Text) → is_sha256 (p.sha256_hex t) ≡ true
  pub uuid_text-no_colon : (u : ℕ) → contains b':' (p.uuid_text u) ≡ false
  pub int_text-no_colon : (n : ℤ) → contains b':' (p.int_text n) ≡ false
  pub uuid_text-injective : (u v : ℕ) → p.uuid_text u ≡ p.uuid_text v → u ≡ v
  pub int_text-injective : (m n : ℤ) → p.int_text m ≡ p.int_text n → m ≡ n
