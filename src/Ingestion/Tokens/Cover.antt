-- ===== src/Ingestion/Tokens/Cover.antt =====
-- Every character that is no white space stands in a token.
use native.Mathlib.Decide.{dec_lt}
use enterprise_knowledge_sea.Common.{
  ℕ, zero, suc, ◌+◌, ◌-◌, ◌≤◌, ◌<◌, ◌≡◌, ◌⊎◌, inl, inr, true, false, Text, List, [], ◌∷◌, is_space,
  if◌then◌else◌, ◌==◌, arith,
}
use enterprise_knowledge_sea.Platform.{Platform}
use enterprise_knowledge_sea.Ingestion.Tokens.{Span, match_length, scan, find_tokens}
use enterprise_knowledge_sea.Ingestion.Tokens.Spans.{IsSolid}

-- Some span holds the position.
abbrev pub InSpan : List Span → ℕ → Type 0
InSpan [] j = ⊥
InSpan (t ∷ ts) j = ((t.start ≤ j) × (j < t.stop)) ⊎ InSpan ts j

emit :
    (n i at : ℕ) (rest : List Span)
    → (n ≤ i → InSpan rest (at + i))
    → InSpan (if n == 0 then rest else record { start = at; stop = at + n } ∷ rest) (at + i)
emit zero i at rest later = later (omega arith)
emit (suc k) i at rest later =
    let more : (suc k == 0) ≡ false = ground arith in
    rw more (elim (dec_lt i (suc k)) [
      | yes inside ↦ inl (omega arith, omega arith)
      | no outside ↦ inr (later (omega arith))
    ])

module _ (p : Platform) where
  no_match : (c : ℕ) (s : Text) → match_length p (c ∷ s) ≡ 0 → is_space c ≡ true
  unfolding match_length
  no_match c s h = ground arith

  scan-InSpan :
      (skip at : ℕ) (s : Text) (i : ℕ) → skip ≤ i → IsSolid s i → InSpan (scan p skip at s) (at + i)
  unfolding scan
  scan-InSpan skip at [] i h (c, e, _) = cc
  scan-InSpan (suc skip) at (c ∷ s) zero h solid = absurd (omega arith)
  scan-InSpan (suc skip) at (c ∷ s) (suc i) h solid =
      let e : at + suc i ≡ suc at + i = omega arith in
      rw e (scan-InSpan skip (suc at) s i (omega arith) solid)
  scan-InSpan zero at (c ∷ s) zero h (d, e, visible) =
      let n : ℕ = match_length p (c ∷ s) in
      emit n zero at (scan p (n - 1) (suc at) s) (λ k. absurd (ground (arith, no_match c s)))
  scan-InSpan zero at (c ∷ s) (suc i) h solid =
      let n : ℕ = match_length p (c ∷ s) in
      let e : at + suc i ≡ suc at + i = omega arith in
      emit n (suc i) at (scan p (n - 1) (suc at) s)
        (λ k. rw e (scan-InSpan (n - 1) (suc at) s i (omega arith) solid))

  pub find_tokens-InSpan : (s : Text) (i : ℕ) → IsSolid s i → InSpan (find_tokens p s) i
  unfolding find_tokens
  find_tokens-InSpan s i solid =
      let e : i ≡ 0 + i = omega arith in rw e (scan-InSpan 0 0 s i (omega arith) solid)
