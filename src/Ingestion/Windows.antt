-- ===== src/Ingestion/Windows.antt =====
-- `_windows` of knowledge_search/ingestion/chunking.py: the windows of tokens over a text.
pub mod Stripped
pub mod Coverage
use enterprise_knowledge_sea.Common.{
  ℕ, zero, suc, ◌+◌, ◌-◌, min, Text, List, [], ◌∷◌, Option, none, some, strip, ltb, ◌==◌, length,
  get_elem?, slice, is_empty, if◌then◌else◌,
}
use enterprise_knowledge_sea.Platform.{Platform}
use enterprise_knowledge_sea.Ingestion.Tokens.{Span, find_tokens}

pub record TextWindow : Type 0 where
  pub text : Text
  pub token_count : ℕ
  pub char_start : ℕ
  pub char_end : ℕ

-- One window: the tokens from `token_start` up to `token_end`. `none` is an IndexError.
unfoldable pub window_at : Text → List Span → ℕ → ℕ → Option TextWindow
window_at text matches token_start token_end = elim (get_elem? matches token_start) [
  | none ↦ none
  | some first ↦ elim (get_elem? matches (token_end - 1)) [
    | none ↦ none
    | some last ↦ some (record {
      text = strip (slice first.start last.stop text);
      token_count = token_end - token_start;
      char_start = first.start;
      char_end = last.stop;
    })
  ]
]

abbrev cons? : Option TextWindow → Option (List TextWindow) → Option (List TextWindow)
cons? (some w) (some ws) = some (w ∷ ws)
cons? _ _ = none

-- The `while` loop from `token_start` on, with `size` and `step = size - overlap`; `none` also
-- where the fuel runs out.
unfoldable pub loop : ℕ → ℕ → ℕ → Text → List Span → ℕ → Option (List TextWindow)
loop zero size step text matches token_start = none
loop (suc fuel) size step text matches token_start =
    let rest = loop fuel size step text matches (token_start + step) in
    let token_end = min (token_start + size) (length matches) in
    if ltb token_start (length matches)
    then cons? (window_at text matches token_start token_end)
        (if token_end == length matches then some [] else rest)
    else some []

-- `_windows(text, size=size, overlap=overlap)`, with fuel for each token and one more.
unfoldable pub windows : Platform → ℕ → ℕ → Text → Option (List TextWindow)
windows p size overlap text =
    let matches = find_tokens p text in
    if is_empty matches
    then some []
    else loop (suc (length matches)) size (size - overlap) text matches 0
