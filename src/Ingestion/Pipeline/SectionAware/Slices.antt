-- ===== src/Ingestion/Pipeline/SectionAware/Slices.antt =====
-- A slice of a slice, and where the visible characters of a joined text stand.
use enterprise_knowledge_sea.Common.{
  ℕ, zero, suc, ◌+◌, ◌-◌, ◌≤◌, ◌≡◌, refl, sym, ◌∙◌, ap, ◌⊎◌, inl, inr, Text, List, [], ◌∷◌, ◌++◌,
  is_space, length, take, drop, slice, arith,
}
use enterprise_knowledge_sea.Ingestion.Models.{NormalizedSection, joined}
use enterprise_knowledge_sea.Ingestion.Tokens.Spans.{IsSolid}

drop-nil : (n : ℕ) → drop {A = ℕ} n [] ≡ []
drop-nil zero = refl
drop-nil (suc n) = refl

drop-drop : (a b : ℕ) (s : Text) → drop a (drop b s) ≡ drop (b + a) s
drop-drop a zero s = let e : 0 + a ≡ a = omega arith in rw e refl
drop-drop a (suc b) [] = let e : suc b + a ≡ suc (b + a) = omega arith in rw e (drop-nil a)
drop-drop a (suc b) (c ∷ s) =
    let e : suc b + a ≡ suc (b + a) = omega arith in rw e (drop-drop a b s)

take-drop-take : (n a m : ℕ) (s : Text) → a + n ≤ m → take n (drop a (take m s)) ≡ take n (drop a s)
take-drop-take zero a m s h = refl
take-drop-take (suc n) a zero s h = absurd (omega arith)
take-drop-take (suc n) zero (suc m) [] h = refl
take-drop-take (suc n) zero (suc m) (c ∷ s) h = ap (◌∷◌ c) (take-drop-take n zero m s (omega arith))
take-drop-take (suc n) (suc a) (suc m) [] h = refl
take-drop-take (suc n) (suc a) (suc m) (c ∷ s) h = take-drop-take (suc n) a m s (omega arith)

-- Offsets inside a part of a text, as offsets in the text.
pub slice-slice :
    (at n a b : ℕ) (full t : Text)
    → slice at (at + n) full ≡ t
    → a ≤ b
    → b ≤ n
    → slice a b t ≡ slice (at + a) (at + b) full
slice-slice at n a b full t e le h =
    let same : at + b - (at + a) ≡ b - a = omega arith in
    let whole : at + n - at ≡ n = omega arith in
    let part : t ≡ take n (drop at full) = sym e ∙ ap (λ k. take k (drop at full)) whole in
    ap (slice a b) part
    ∙ take-drop-take (b - a) a n (drop at full) (omega arith)
    ∙ ap (take (b - a)) (drop-drop a at full)
    ∙ ap (λ k. take k (drop (at + a) full)) (sym same)

-- Some section holds the position, counted from the first one's place.
abbrev pub InSection : ℕ → List NormalizedSection → ℕ → Type 0
InSection at [] j = ⊥
InSection at (s ∷ rest) j =
    ((i : ℕ) × (j ≡ at + i) × IsSolid s.text i) ⊎ InSection (at + (length s.text + 2)) rest j

IsSolid-append :
    (s t : Text) (i : ℕ)
    → IsSolid (s ++ t) i
    → IsSolid s i ⊎ ((k : ℕ) × (i ≡ length s + k) × IsSolid t k)
IsSolid-append [] t i h = inr (i, omega arith, h)
IsSolid-append (c ∷ s) t zero h = inl h
IsSolid-append (c ∷ s) t (suc i) h = elim (IsSolid-append s t i h) [
  | inl here ↦ inl here
  | inr (k, e, there) ↦ inr (k, omega arith, there)
]

-- What separates two sections is white space, so a visible character is in a section.
pub joined-InSection :
    (at : ℕ) (sections : List NormalizedSection) (j : ℕ)
    → IsSolid (joined sections) j
    → InSection at sections (at + j)
unfolding joined
joined-InSection at [] j (c, e, v) = cc
joined-InSection at (s ∷ []) j h = inl (j, refl, h)
joined-InSection at (s ∷ t ∷ rest) j h =
    elim (IsSolid-append s.text (10 ∷ 10 ∷ joined (t ∷ rest)) j h) [
      | inl here ↦ inl (j, refl, here)
      | inr (zero, e, (c, ec, v)) ↦ absurd (unfold is_space in ground arith)
      | inr (suc zero, e, (c, ec, v)) ↦ absurd (unfold is_space in ground arith)
      | inr (suc (suc k), e, there) ↦
          let same : at + (length s.text + 2) + k ≡ at + j = omega arith in
          inr (rw same at (joined-InSection (at + (length s.text + 2)) (t ∷ rest) k there))
    ]
