-- ===== src/Ingestion/Windows/Stripped.antt =====
-- `strip` changes nothing of a slice that begins and ends with a visible character.
use native.Mathlib.Nat.{zero-add, add-zero}
use enterprise_knowledge_sea.Common.{
  ℕ, zero, suc, ◌+◌, ◌-◌, ◌≤◌, ◌<◌, ◌≡◌, refl, ◌∙◌, false, Text, [], ◌∷◌, some, lstrip, rstrip,
  strip, blank, length, get_elem?, take, drop, slice, length-take, length-drop, arith,
}
use enterprise_knowledge_sea.Ingestion.Tokens.Spans.{IsSolid}

get_elem?-take : (n i : ℕ) (s : Text) → i < n → get_elem? (take n s) i ≡ get_elem? s i
get_elem?-take zero i s h = absurd (omega arith)
get_elem?-take (suc n) i [] h = refl
get_elem?-take (suc n) zero (c ∷ s) h = refl
get_elem?-take (suc n) (suc i) (c ∷ s) h = get_elem?-take n i s (omega arith)

get_elem?-drop : (n i : ℕ) (s : Text) → get_elem? (drop n s) i ≡ get_elem? s (n + i)
get_elem?-drop zero i s = rw zero-add
get_elem?-drop (suc n) i [] = refl
get_elem?-drop (suc n) i (c ∷ s) =
    let e : suc n + i ≡ suc (n + i) = omega arith in rw e (get_elem?-drop n i s)

lstrip_solid : (s : Text) → IsSolid s 0 → lstrip s ≡ s
unfolding lstrip
lstrip_solid [] (c, e, v) = refl
lstrip_solid (c ∷ s) (d, e, v) = ground arith

rstrip_solid : (c : ℕ) (s : Text) → IsSolid (c ∷ s) (length s) → rstrip (c ∷ s) ≡ c ∷ s
unfolding rstrip
rstrip_solid c [] (d, e, v) = ground arith
rstrip_solid c (d ∷ s) solid = rw (rstrip_solid d s solid) refl

-- A text with visible ends is its own `strip`.
strip_solid :
    (w : Text) → IsSolid w 0 → IsSolid w (length w - 1) → (strip w ≡ w) × (blank w ≡ false)
unfolding strip blank
strip_solid [] (c, e, v) last = cc
strip_solid (c ∷ w) first last =
    let e : suc (length w) - 1 ≡ length w = omega arith in
    let same : rstrip (c ∷ w) ≡ c ∷ w = rstrip_solid c w (rw e at last) in
    (rw same (lstrip_solid (c ∷ w) first), rw same (rw (lstrip_solid (c ∷ w) first)))

pub get_elem?-lt : (s : Text) (i c : ℕ) → get_elem? s i ≡ some c → i < length s
get_elem?-lt [] i c e = cc
get_elem?-lt (d ∷ s) zero c e = omega arith
get_elem?-lt (d ∷ s) (suc i) c e = omega (arith, get_elem?-lt s i c e)

pub length-slice : (a b : ℕ) (s : Text) → b ≤ length s → length (slice a b s) ≡ b - a
length-slice a b s h = omega (arith, length-take (b - a) (drop a s), length-drop a s)

pub get_elem?-slice :
    (a b i : ℕ) (s : Text) → i < b - a → get_elem? (slice a b s) i ≡ get_elem? s (a + i)
get_elem?-slice a b i s h = get_elem?-take (b - a) i (drop a s) h ∙ get_elem?-drop a i s

-- A slice between visible characters loses nothing to `strip` and is not blank.
pub strip-slice :
    (a b : ℕ) (s : Text)
    → a < b
    → IsSolid s a
    → IsSolid s (b - 1)
    → (strip (slice a b s) ≡ slice a b s) × (blank (slice a b s) ≡ false)
strip-slice a b s h (c, ec, vc) (d, ed, vd) =
    let size : length (slice a b s) ≡ b - a =
      length-slice a b s (omega (arith, get_elem?-lt s (b - 1) d ed)) in
    let at_end : a + (b - a - 1) ≡ b - 1 = omega arith in
    strip_solid (slice a b s) (c, get_elem?-slice a b 0 s (omega arith) ∙ rw add-zero ec, vc)
      (d, rw size (get_elem?-slice a b (b - a - 1) s (omega arith) ∙ rw at_end ed), vd)
