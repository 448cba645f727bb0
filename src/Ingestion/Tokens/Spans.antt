-- ===== src/Ingestion/Tokens/Spans.antt =====
-- The spans of the tokens: ascending, disjoint, inside the text, and with no white space at
-- their two ends.
use enterprise_knowledge_sea.Common.{
  ℕ, zero, suc, ◌+◌, ◌-◌, ◌≤◌, ◌<◌, ◌≡◌, refl, true, false, Text, List, [], ◌∷◌, some, is_space,
  get_elem?, if◌then◌else◌, ◌==◌, ◌&&◌, ◌||◌, Bool-cases, inl, inr, arith,
}
use enterprise_knowledge_sea.Platform.{Platform, PlatformLaws}
use enterprise_knowledge_sea.Ingestion.Tokens.{
  Span, starts_word, is_joiner, more_word, match_length, scan, find_tokens,
}

-- The text has a character at the position, and it is no white space.
abbrev pub IsSolid : Text → ℕ → Type 0
IsSolid s i = (c : ℕ) × (get_elem? s i ≡ some c) × (is_space c ≡ false)

-- Tokens of a text whose first character stands at position `at`, none before `low`.
abbrev pub AreTokens : (at : ℕ) → Text → ℕ → List Span → Type 0
AreTokens at s low [] = Unit
AreTokens at s low (t ∷ ts) =
    (low ≤ t.start)
    × (at ≤ t.start)
    × (t.start < t.stop)
    × IsSolid s (t.start - at)
    × IsSolid s (t.stop - 1 - at)
    × AreTokens at s t.stop ts

IsSolid-cons :
    (at i c : ℕ) (s : Text) → suc at ≤ i → IsSolid s (i - suc at) → IsSolid (c ∷ s) (i - at)
IsSolid-cons at i c s h solid = let e : i - at ≡ suc (i - suc at) = omega arith in rw e solid

AreTokens-weaken :
    (at low low' : ℕ) (s : Text) (ts : List Span)
    → low ≤ low'
    → AreTokens at s low' ts
    → AreTokens at s low ts
AreTokens-weaken at low low' s [] h k = tt
AreTokens-weaken at low low' s (t ∷ ts) h (a, b, d, e, f, g) = (omega arith, b, d, e, f, g)

-- Tokens of a tail are tokens of the whole.
AreTokens-cons :
    (at low c : ℕ) (s : Text) (ts : List Span)
    → AreTokens (suc at) s low ts
    → AreTokens at (c ∷ s) low ts
AreTokens-cons at low c s [] h = tt
AreTokens-cons at low c s (t ∷ ts) (a, b, d, e, f, g) = (
  a,
  omega arith,
  d,
  IsSolid-cons at t.start c s b e,
  IsSolid-cons at (t.stop - 1) c s (omega arith) f,
  AreTokens-cons at t.stop c s ts g,
)

-- One round of the scan, for a match of any length.
emit :
    (n c at : ℕ) (s : Text) (rest : List Span)
    → ((k : ℕ) → n ≡ suc k → IsSolid (c ∷ s) k × (is_space c ≡ false))
    → AreTokens (suc at) s (suc at + (n - 1)) rest
    → AreTokens at
        (c ∷ s)
        (at + 0)
        (if n == 0 then rest else record { start = at; stop = at + n } ∷ rest)
emit zero c at s rest ends h =
    AreTokens-cons at (at + 0) c s rest
      (AreTokens-weaken (suc at) (at + 0) (suc at + (0 - 1)) s rest (omega arith) h)
emit (suc k) c at s rest ends h =
    let (last, first) = ends k refl in
    let zeroth : at - at ≡ 0 = omega arith in
    let end : at + suc k - 1 - at ≡ k = omega arith in
    let more : (suc k == 0) ≡ false = ground arith in
    rw more (
      omega arith,
      omega arith,
      omega arith,
      rw zeroth (c, refl, first),
      rw end last,
      AreTokens-cons at (at + suc k) c s rest
          (AreTokens-weaken (suc at) (at + suc k) (suc at + (suc k - 1)) s rest (omega arith) h),
    )

module _ (p : Platform) (laws : PlatformLaws p) where
  stops :
      (d : ℕ) (s : Text) → p.is_word d ≡ false → starts_word p s ≡ false → more_word p (d ∷ s) ≡ 0
  unfolding more_word
  stops d s h k = ground arith

  joins :
      (d : ℕ) (s : Text)
      → p.is_word d || (is_joiner p d && starts_word p s) ≡ true
      → more_word p (d ∷ s) ≡ suc (more_word p s)
  unfolding more_word
  joins d s h = ground arith

  parts :
      (d : ℕ) (s : Text)
      → p.is_word d || (is_joiner p d && starts_word p s) ≡ false
      → more_word p (d ∷ s) ≡ 0
  unfolding more_word
  parts d s h = ground arith

  joined_word :
      (d e : ℕ) (s : Text)
      → p.is_word d ≡ false
      → p.is_word d || (is_joiner p d && starts_word p (e ∷ s)) ≡ true
      → p.is_word e ≡ true
  unfolding starts_word
  joined_word d e s h k = ground arith

  -- The last character of a word is a word's character, which is no white space.
  word_end : (c : ℕ) (s : Text) → p.is_word c ≡ true → IsSolid (c ∷ s) (more_word p s)
  word_end c [] h = unfold more_word in (c, refl, laws.word_not_space c h)
  word_end c (d ∷ []) h = elim (Bool-cases (p.is_word d)) [
    | inl w ↦ rw (joins d [] (ground arith)) (word_end d [] w)
    | inr w ↦ rw (stops d [] w (unfold starts_word in refl)) (c, refl, laws.word_not_space c h)
  ]
  word_end c (d ∷ e ∷ s) h =
      let after_d = word_end d (e ∷ s) in
      let after_e = word_end e s in
      elim (Bool-cases (p.is_word d || (is_joiner p d && starts_word p (e ∷ s)))) [
        | inr w ↦ rw (parts d (e ∷ s) w) (c, refl, laws.word_not_space c h)
        | inl w ↦ rw (joins d (e ∷ s) w) (elim (Bool-cases (p.is_word d)) [
          | inl word ↦ after_d word
          | inr joiner ↦
              let word = joined_word d e s joiner w in rw (joins e s (ground arith)) (after_e word)
        ])
      ]

  match_end : (c : ℕ) (s : Text) (n : ℕ) → match_length p (c ∷ s) ≡ suc n → IsSolid (c ∷ s) n
  unfolding match_length
  match_end c s n h = elim (Bool-cases (p.is_word c)) [
    | inl w ↦ let e : n ≡ more_word p s = ground arith in rw e (word_end c s w)
    | inr w ↦ let e : n ≡ 0 = ground arith in rw e (c, refl, ground arith)
  ]

  match_start : (c : ℕ) (s : Text) (n : ℕ) → match_length p (c ∷ s) ≡ suc n → is_space c ≡ false
  unfolding match_length
  match_start c s n h = ground (arith, laws.word_not_space c)

  scan-AreTokens : (skip at : ℕ) (s : Text) → AreTokens at s (at + skip) (scan p skip at s)
  unfolding scan
  scan-AreTokens skip at [] = tt
  scan-AreTokens (suc skip) at (c ∷ s) =
      AreTokens-cons at (at + suc skip) c s (scan p skip (suc at) s) (
        AreTokens-weaken (suc at) (at + suc skip) (suc at + skip) s (scan p skip (suc at) s)
          (omega arith) (scan-AreTokens skip (suc at) s))
  scan-AreTokens zero at (c ∷ s) =
      let n : ℕ = match_length p (c ∷ s) in
      emit n c at s (scan p (n - 1) (suc at) s) (λ k e. (match_end c s k e, match_start c s k e))
        (scan-AreTokens (n - 1) (suc at) s)

  pub find_tokens-AreTokens : (s : Text) → AreTokens 0 s 0 (find_tokens p s)
  unfolding find_tokens
  find_tokens-AreTokens s =
      AreTokens-weaken 0 0 (0 + 0) s (scan p 0 0 s) (omega arith) (scan-AreTokens 0 0 s)
