-- ===== src/Ingestion/Tokens.antt =====
-- `TOKEN_PATTERN.finditer` of knowledge_search/ingestion/chunking.py: the spans of
-- `\w+(?:[-'][\w]+)*|[^\w\s]` in a text. `\s` is `str.isspace`; `\w` is the platform's.
pub mod Spans
pub mod Cover
use enterprise_knowledge_sea.Common.{
  ℕ, zero, suc, ◌+◌, ◌-◌, Bool, true, false, ◌&&◌, ◌||◌, Text, List, [], ◌∷◌, is_space, ◌==◌,
  if◌then◌else◌,
}
use enterprise_knowledge_sea.Platform.{Platform}

-- a match object: `start()` and `end()`
pub record Span : Type 0 where
  pub start : ℕ
  pub stop : ℕ

module _ (p : Platform) where
  unfoldable pub starts_word : Text → Bool
  starts_word [] = false
  starts_word (c ∷ s) = p.is_word c

  -- `[-']`
  unfoldable pub is_joiner : ℕ → Bool
  is_joiner c = c == b'-' || c == 0x27

  -- Behind a first `\w`: how many more characters `\w*(?:[-'][\w]+)*` takes.
  unfoldable pub more_word : Text → ℕ
  unfolding starts_word is_joiner
  more_word [] = 0
  more_word (c ∷ s) =
      let rest = more_word s in
      if p.is_word c || (is_joiner c && starts_word s) then suc rest else 0

  -- The length of the match that begins here, 0 for none.
  unfoldable pub match_length : Text → ℕ
  match_length [] = 0
  match_length (c ∷ s) = if p.is_word c then suc (more_word s) else if is_space c then 0 else 1

  -- The matches from position `at` on, of which the first `skip` characters are taken already.
  unfoldable pub scan : ℕ → ℕ → Text → List Span
  scan skip at [] = []
  scan (suc skip) at (c ∷ s) = scan skip (suc at) s
  scan zero at (c ∷ s) =
      let n = match_length (c ∷ s) in
      let rest = scan (n - 1) (suc at) s in
      if n == 0 then rest else record { start = at; stop = at + n } ∷ rest

  -- `list(TOKEN_PATTERN.finditer(text))`
  unfoldable pub find_tokens : Text → List Span
  find_tokens text = scan 0 0 text
