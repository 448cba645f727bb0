-- ===== src/Ingestion/Windows/Coverage.antt =====
-- The windows exist, are exact slices of the text within the size, and leave no token out.
use mathlib.Core.Path.{subst}
use mathlib.Core.Option.{some-injective}
use native.Mathlib.Decide.{dec_lt}
use enterprise_knowledge_sea.Common.{
  ℕ, zero, suc, ◌+◌, ◌-◌, ◌≤◌, ◌<◌, ◌≡◌, refl, ◌⊎◌, inl, inr, min, true, false, Text, List, [], ◌∷◌,
  Option, some, none, blank, strip, length, get_elem?, slice, All, is_empty, Bool-cases, ltb, ◌==◌,
  arith,
}
use enterprise_knowledge_sea.Platform.{Platform, PlatformLaws}
use enterprise_knowledge_sea.Ingestion.Tokens.{Span, find_tokens}
use enterprise_knowledge_sea.Ingestion.Tokens.Spans.{IsSolid, AreTokens, find_tokens-AreTokens}
use enterprise_knowledge_sea.Ingestion.Tokens.Cover.{InSpan, find_tokens-InSpan}
use enterprise_knowledge_sea.Ingestion.Windows.{TextWindow, cons?, window_at, loop, windows}
use enterprise_knowledge_sea.Ingestion.Windows.Stripped.{strip-slice, get_elem?-lt}

-- What a window of at most `size` tokens over a text is.
pub record IsWindow (size : ℕ) (text : Text) (w : TextWindow) : Type 0 where
  pub some_tokens : 1 ≤ w.token_count
  pub few_tokens : w.token_count ≤ size
  pub range : w.char_start < w.char_end
  pub inside : w.char_end ≤ length text
  pub exact : w.text ≡ slice w.char_start w.char_end text
  pub visible : blank w.text ≡ false

-- A window holds the whole span.
abbrev pub Holds : TextWindow → Span → Type 0
Holds w t = (w.char_start ≤ t.start) × (t.stop ≤ w.char_end)

abbrev pub InWindow : List TextWindow → Span → Type 0
InWindow [] t = ⊥
InWindow (w ∷ ws) t = Holds w t ⊎ InWindow ws t

get_elem?-exists : (ts : List Span) (i : ℕ) → i < length ts → (t : Span) × (get_elem? ts i ≡ some t)
get_elem?-exists [] i h = absurd (omega arith)
get_elem?-exists (t ∷ ts) zero h = (t, refl)
get_elem?-exists (t ∷ ts) (suc i) h = get_elem?-exists ts i (omega arith)

index_lt : (ts : List Span) (i : ℕ) (t : Span) → get_elem? ts i ≡ some t → i < length ts
index_lt [] i t e = cc
index_lt (u ∷ ts) zero t e = omega arith
index_lt (u ∷ ts) (suc i) t e = omega (arith, index_lt ts i t e)

empty_length : (ts : List Span) → is_empty ts ≡ true → length ts ≤ 0
empty_length [] h = omega arith
empty_length (t ∷ ts) h = cc

-- One token of a list of tokens.
abbrev TokenAt : Text → ℕ → Span → Type 0
TokenAt s low t = (low ≤ t.start) × (t.start < t.stop) × IsSolid s t.start × IsSolid s (t.stop - 1)

module _ (s : Text) where
  token_at :
      (low i : ℕ) (ts : List Span) (t : Span)
      → AreTokens 0 s low ts
      → get_elem? ts i ≡ some t
      → TokenAt s low t
  token_at low i [] t h e = cc
  token_at low zero (u ∷ ts) t (a, b, d, first, last, rest) e =
      let z : u.start - 0 ≡ u.start = omega arith in
      let y : u.stop - 1 - 0 ≡ u.stop - 1 = omega arith in
      subst (λ v. TokenAt s low v) (some-injective u t e) (a, d, rw z at first, rw y at last)
  token_at low (suc i) (u ∷ ts) t (a, b, d, first, last, rest) e =
      let (a', d', first', last') = token_at u.stop i ts t rest e in
      (omega arith, d', first', last')

  ascending :
      (low i j : ℕ) (ts : List Span) (t u : Span)
      → AreTokens 0 s low ts
      → i ≤ j
      → get_elem? ts i ≡ some t
      → get_elem? ts j ≡ some u
      → (t.start ≤ u.start) × (t.stop ≤ u.stop)
  ascending low i j [] t u h le e f = cc
  ascending low zero zero (v ∷ ts) t u h le e f = ground arith
  ascending low (suc i) zero (v ∷ ts) t u h le e f = absurd (omega arith)
  ascending low zero (suc j) (v ∷ ts) t u (a, b, d, first, last, rest) le e f =
      let (a', d', _, _) = token_at v.stop j ts u rest f in ground arith
  ascending low (suc i) (suc j) (v ∷ ts) t u (a, b, d, first, last, rest) le e f =
      ascending v.stop i j ts t u rest (omega arith) e f

module _ (size : ℕ) (s : Text) (ts : List Span) (tokens : AreTokens 0 s 0 ts) where
  spans_window :
      (i j : ℕ) (t u : Span)
      → get_elem? ts i ≡ some t
      → get_elem? ts (j - 1) ≡ some u
      → window_at s ts i j
        ≡ some (record {
          text = strip (slice t.start u.stop s);
          token_count = j - i;
          char_start = t.start;
          char_end = u.stop;
        })
  unfolding window_at
  spans_window i j t u et eu = ground arith

  -- The window over the tokens from `i` up to `j`.
  window_at-IsWindow :
      (i j : ℕ)
      → i < j
      → j ≤ length ts
      → j - i ≤ size
      → (w : TextWindow) × (window_at s ts i j ≡ some w)
        × IsWindow size s w
        × ((k : ℕ) (t : Span) → i ≤ k → k < j → get_elem? ts k ≡ some t → Holds w t)
  window_at-IsWindow i j ij jn few =
      let (t, et) = get_elem?-exists ts i (omega arith) in
      let (u, eu) = get_elem?-exists ts (j - 1) (omega arith) in
      let (_, tr, t_first, _) = token_at s 0 i ts t tokens et in
      let (_, ur, _, (c, ec, vc)) = token_at s 0 (j - 1) ts u tokens eu in
      let (le_start, le_stop) = ascending s 0 i (j - 1) ts t u tokens (omega arith) et eu in
      let (exact, visible) = strip-slice t.start u.stop s (omega arith) t_first (c, ec, vc) in
      (
        record {
          text = strip (slice t.start u.stop s);
          token_count = j - i;
          char_start = t.start;
          char_end = u.stop;
        },
        spans_window i j t u et eu,
        record {
          some_tokens = omega arith;
          few_tokens = few;
          range = omega arith;
          inside = omega (arith, get_elem?-lt s (u.stop - 1) c ec);
          exact = exact;
          visible = rw exact visible;
        },
        λ k v ik kj ev.
            let (lo, _) = ascending s 0 i k ts t v tokens ik et ev in
            let (_, hi) = ascending s 0 k (j - 1) ts v u tokens (omega arith) ev eu in (lo, hi),
      )

  -- What the loop returns from a token on: windows that leave no later token out.
  abbrev Covers : ℕ → Option (List TextWindow) → Type 0
  Covers i none = ⊥
  Covers i (some ws) =
      All (IsWindow size s) ws
      × ((k : ℕ) (t : Span) → i ≤ k → get_elem? ts k ≡ some t → InWindow ws t)

  Covers-end : (i : ℕ) → length ts ≤ i → Covers i (some [])
  Covers-end i h = (tt, λ k t ik e. absurd (omega (arith, index_lt ts k t e)))

  Covers-cons :
      (i j next : ℕ) (w : TextWindow) (rest : Option (List TextWindow))
      → IsWindow size s w
      → ((k : ℕ) (t : Span) → i ≤ k → k < j → get_elem? ts k ≡ some t → Holds w t)
      → next ≤ j
      → Covers next rest
      → Covers i (cons? (some w) rest)
  Covers-cons i j next w none iw holds h c = c
  Covers-cons i j next w (some ws) iw holds h (all, later) = (
    (iw, all),
    λ k t ik e. elim (dec_lt k j) [
      | yes kj ↦ inl (holds k t ik kj e)
      | no kj ↦ inr (later k t (omega arith) e)
    ],
  )

  loop-Covers :
      (step fuel i : ℕ)
      → 1 ≤ step
      → step ≤ size
      → length ts - i < fuel
      → Covers i (loop fuel size step s ts i)
  unfolding loop
  loop-Covers step zero i h1 h2 f = absurd (omega arith)
  loop-Covers step (suc fuel) i h1 h2 f = elim (Bool-cases (ltb i (length ts))) [
    | inr done ↦ rw done (Covers-end i (ground arith))
    | inl more ↦
        let ih = λ (h : length ts - (i + step) < fuel). loop-Covers step fuel (i + step) h1 h2 h in
        let j : ℕ = min (i + size) (length ts) in
        let (w, ew, iw, holds) =
          window_at-IsWindow i j (ground arith) (omega arith) (omega arith) in
        rw more (
          rw ew (elim (Bool-cases (j == length ts)) [
            | inl last ↦ rw last (
                Covers-cons i j (length ts) w (some []) iw holds (ground arith)
                  (Covers-end (length ts) (omega arith)))
            | inr again ↦ rw again (
                Covers-cons i j (i + step) w (loop fuel size step s ts (i + step)) iw holds
                  (ground arith) (ih (ground arith)))
          ]))
  ]

-- Some window holds the character at the position.
abbrev pub InChars : List TextWindow → ℕ → Type 0
InChars [] i = ⊥
InChars (w ∷ ws) i = ((w.char_start ≤ i) × (i < w.char_end)) ⊎ InChars ws i

InSpan-index :
    (ts : List Span) (i : ℕ)
    → InSpan ts i
    → (k : ℕ) × (t : Span) × (get_elem? ts k ≡ some t) × (t.start ≤ i) × (i < t.stop)
InSpan-index [] i h = absurd h
InSpan-index (t ∷ ts) i (inl (a, b)) = (0, t, refl, a, b)
InSpan-index (t ∷ ts) i (inr h) = let (k, u, e, a, b) = InSpan-index ts i h in (suc k, u, e, a, b)

InChars-of_InWindow :
    (ws : List TextWindow) (t : Span) (i : ℕ)
    → t.start ≤ i
    → i < t.stop
    → InWindow ws t
    → InChars ws i
InChars-of_InWindow [] t i a b h = h
InChars-of_InWindow (w ∷ ws) t i a b (inl (c, d)) = inl (omega arith, omega arith)
InChars-of_InWindow (w ∷ ws) t i a b (inr h) = inr (InChars-of_InWindow ws t i a b h)

-- What the windows over a text are worth: each is exact, and no visible character is left out.
pub record AreWindows (size : ℕ) (s : Text) (ws : List TextWindow) : Type 0 where
  pub each : All (IsWindow size s) ws
  pub every : (i : ℕ) → IsSolid s i → InChars ws i

AreWindows-of_Covers :
    (size : ℕ) (s : Text) (ts : List Span) (tokens : AreTokens 0 s 0 ts)
    → ((i : ℕ) → IsSolid s i → InSpan ts i)
    → (r : Option (List TextWindow)) → Covers size s ts tokens 0 r
    → (ws : List TextWindow) × (r ≡ some ws) × AreWindows size s ws
AreWindows-of_Covers size s ts tokens seen none c = absurd c
AreWindows-of_Covers size s ts tokens seen (some ws) (each, held) = (
  ws,
  refl,
  record {
    each = each;
    every = λ i solid.
        let (k, t, e, a, b) = InSpan-index ts i (seen i solid) in
        InChars-of_InWindow ws t i a b (held k t (omega arith) e);
  },
)

-- For a valid configuration `_windows` returns; every window has between one and `size` tokens,
-- is exactly the slice of the text between its offsets and is not blank; and every character of
-- the text that is no white space lies in a window.
pub windows_total :
    (p : Platform)
    → PlatformLaws p
    → (size overlap : ℕ) (s : Text) → overlap < size
    → (ws : List TextWindow) × (windows p size overlap s ≡ some ws) × AreWindows size s ws
unfolding windows
windows_total p laws size overlap s h =
    let ts : List Span = find_tokens p s in
    let tokens : AreTokens 0 s 0 ts = find_tokens-AreTokens p laws s in
    elim (Bool-cases (is_empty ts)) [
      | inl none_found ↦ rw none_found (
          AreWindows-of_Covers size s ts tokens (find_tokens-InSpan p s) (some [])
            (Covers-end size s ts tokens 0 (empty_length ts none_found)))
      | inr found ↦ rw found (
          AreWindows-of_Covers size s ts tokens (find_tokens-InSpan p s)
            (loop (suc (length ts)) size (size - overlap) s ts 0)
            (loop-Covers size s ts tokens (size - overlap) (suc (length ts)) 0 (omega arith)
              (omega arith) (omega arith)))
    ]
