-- ===== src/Ingestion/Pipeline/Offsets.antt =====
-- The offsets of the normalized sections are their places in the joined text.
use mathlib.Core.Path.{subst}
use mathlib.Core.List.{append-nil, append_assoc}
use enterprise_knowledge_sea.Common.{
  sym, ℕ, ◌+◌, ◌-◌, ◌≡◌, refl, ap, ◌∙◌, true, false, Text, List, [], ◌∷◌, ◌++◌, pos, is_empty,
  length, take, drop, slice, length-append, All, Bool-cases, inl, inr, arith,
}
use enterprise_knowledge_sea.Errors.{ok, >>=-eq-ok}
use enterprise_knowledge_sea.Platform.{Platform}
use enterprise_knowledge_sea.Domain.Locator
use enterprise_knowledge_sea.Domain.Locator.{SourceLocator}
use enterprise_knowledge_sea.Ingestion.Models.{ExtractedSection, NormalizedSection, joined}
use enterprise_knowledge_sea.Ingestion.Normalize.{normalize_document_text}
use enterprise_knowledge_sea.Ingestion.Normalize.Edges.{normalize-IsSolid}
use enterprise_knowledge_sea.Ingestion.Tokens.Spans.{IsSolid}
use enterprise_knowledge_sea.Ingestion.Pipeline.{normalize_from, normalize_sections}

-- A section that begins at a place: its locator is valid and spans its text from there.
pub record BeginsAt (at : ℕ) (s : NormalizedSection) : Type 0 where
  pub start : s.locator.char_start ≡ pos at
  pub end : s.locator.char_end ≡ pos (at + length s.text)
  pub valid : Locator.IsValid s.locator
  pub visible : IsSolid s.text 0

-- Sections laid out one behind the other, with two line feeds between.
abbrev pub LaidOut : ℕ → List NormalizedSection → Type 0
LaidOut at [] = Unit
LaidOut at (s ∷ rest) = BeginsAt at s × LaidOut (at + (length s.text + 2)) rest

-- One section of the loop that is kept.
kept :
    (p : Platform) (cursor : ℕ) (x : ExtractedSection) (xs : List ExtractedSection)
    (sections : List NormalizedSection)
    → is_empty (normalize_document_text p x.text) ≡ false
    → normalize_from p cursor (x ∷ xs) ≡ ok sections
    → (s : NormalizedSection) × (rest : List NormalizedSection) × (sections ≡ s ∷ rest)
      × BeginsAt cursor s
      × (normalize_from p (cursor + (length s.text + 2)) xs ≡ ok rest)
unfolding normalize_from
kept p cursor x xs sections full h =
    let text : Text = normalize_document_text p x.text in
    let raw : SourceLocator = record {
      section_path = x.section_path;
      page_number = x.page_number;
      char_start = pos cursor;
      char_end = pos (cursor + length text);
    } in
    let (locator, valid, h1) = >>=-eq-ok (Locator.post_init raw) _ (rw full at h) in
    let (rest, later, h2) = >>=-eq-ok (normalize_from p (cursor + (length text + 2)) xs) _ h1 in
    let (ok_locator, same) = Locator.IsValid-post_init raw valid in
    (
      record { text = text; locator = locator },
      rest,
      ground arith,
      record {
        start = ap (λ (l : SourceLocator). l.char_start) same;
        end = ap (λ (l : SourceLocator). l.char_end) same;
        valid = rw same ok_locator;
        visible = normalize-IsSolid p x.text full;
      },
      later,
    )

skipped :
    (p : Platform) (cursor : ℕ) (x : ExtractedSection) (xs : List ExtractedSection)
    → is_empty (normalize_document_text p x.text) ≡ true
    → normalize_from p cursor (x ∷ xs) ≡ normalize_from p cursor xs
unfolding normalize_from
skipped p cursor x xs empty = rw empty

normalize_from-LaidOut :
    (p : Platform) (cursor : ℕ) (xs : List ExtractedSection) (sections : List NormalizedSection)
    → normalize_from p cursor xs ≡ ok sections
    → LaidOut cursor sections
normalize_from-LaidOut p cursor [] [] h = tt
normalize_from-LaidOut p cursor [] (s ∷ rest) h = unfold normalize_from in cc
normalize_from-LaidOut p cursor (x ∷ xs) sections h =
    elim (Bool-cases (is_empty (normalize_document_text p x.text))) [
      | inl empty ↦
          normalize_from-LaidOut p cursor xs sections (rw (skipped p cursor x xs empty) at h)
      | inr full ↦
          let (s, rest, e, here, later) = kept p cursor x xs sections full h in
          rw e (here, normalize_from-LaidOut p (cursor + (length s.text + 2)) xs rest later)
    ]

-- Whatever `_normalize_sections` returns is laid out from the first character on.
pub normalize_sections-LaidOut :
    (p : Platform) (xs : List ExtractedSection) (sections : List NormalizedSection)
    → normalize_sections p xs ≡ ok sections
    → LaidOut 0 sections × (is_empty sections ≡ false)
unfolding normalize_sections
normalize_sections-LaidOut p xs sections h =
    let (found, e, h1) = >>=-eq-ok (normalize_from p 0 xs) _ h in
    let same : found ≡ sections = ground arith in
    (normalize_from-LaidOut p 0 xs sections (e ∙ ap ok same), ground arith)

take-append : (s t : Text) → take (length s) (s ++ t) ≡ s
take-append [] t = refl
take-append (c ∷ s) t = ap (◌∷◌ c) (take-append s t)

drop-append : (s t : Text) → drop (length s) (s ++ t) ≡ t
drop-append [] t = refl
drop-append (c ∷ s) t = drop-append s t

-- The slice of a text behind a prefix.
slice-append : (u s t : Text) → slice (length u) (length u + length s) (u ++ (s ++ t)) ≡ s
slice-append u s t =
    let n : length u + length s - length u ≡ length s = omega arith in
    rw (n, drop-append u (s ++ t)) (take-append s t)

-- A section that stands where its locator says.
pub record IsPlaced (full : Text) (s : NormalizedSection) : Type 0 where
  pub at : ℕ
  pub begins : BeginsAt at s
  pub exact : slice at (at + length s.text) full ≡ s.text

IsPlaced-behind :
    (u : Text) (sections : List NormalizedSection)
    → LaidOut (length u) sections
    → All (IsPlaced (u ++ joined sections)) sections
unfolding joined
IsPlaced-behind u [] h = tt
IsPlaced-behind u (s ∷ []) (here, later) = (
  record {
    at = length u;
    begins = here;
    exact =
        subst (λ (z : Text). slice (length u) (length u + length s.text) (u ++ z) ≡ s.text)
          (append-nil s.text) (slice-append u s.text []);
  },
  tt,
)
IsPlaced-behind u (s ∷ t ∷ rest) (here, later) =
    let more : Text = joined (t ∷ rest) in
    let gap : Text = s.text ++ (10 ∷ 10 ∷ []) in
    let size : length (u ++ gap) ≡ length u + (length s.text + 2) =
      omega (arith, length-append u gap, length-append s.text (10 ∷ 10 ∷ [])) in
    let same : (u ++ gap) ++ more ≡ u ++ (s.text ++ (10 ∷ 10 ∷ more)) =
      append_assoc u gap more
      ∙ ap (λ (z : Text). u ++ z) (append_assoc s.text (10 ∷ 10 ∷ []) more) in
    (
      record { at = length u; begins = here; exact = slice-append u s.text (10 ∷ 10 ∷ more) },
      subst (λ (z : Text). All (IsPlaced z) (t ∷ rest)) same
          (IsPlaced-behind (u ++ gap) (t ∷ rest)
            (subst (λ n. LaidOut n (t ∷ rest)) (sym size) later)),
    )

-- In the text that the sections are joined to, every section stands where its locator says:
-- the slice between its offsets is its text.
pub LaidOut-IsPlaced :
    (sections : List NormalizedSection)
    → LaidOut 0 sections
    → All (IsPlaced (joined sections)) sections
LaidOut-IsPlaced sections h = IsPlaced-behind [] sections h
