-- ===== src/Ingestion/Pipeline/Sources.antt =====
-- `_section_at_offset` on sections that are laid out.
use native.Mathlib.Decide.{dec_le}
use enterprise_knowledge_sea.Common.{
  ℕ, ◌+◌, ◌≤◌, ◌<◌, ◌≡◌, refl, ◌⊎◌, inl, inr, List, [], ◌∷◌, pos, ltb_ℤ, ◌≤ℤ◌, length, All, arith,
  false,
}
use enterprise_knowledge_sea.Errors.{ok, err, value_error}
use enterprise_knowledge_sea.Domain.Locator
use enterprise_knowledge_sea.Domain.Locator.{SourceLocator}
use enterprise_knowledge_sea.Ingestion.Models.{NormalizedSection}
use enterprise_knowledge_sea.Ingestion.Chunking.{section_at_offset}
use enterprise_knowledge_sea.Ingestion.Pipeline.Offsets.{BeginsAt, LaidOut}

-- One of the sections.
abbrev pub OneOf : List NormalizedSection → NormalizedSection → Type 0
OneOf [] s = ⊥
OneOf (t ∷ rest) s = (s ≡ t) ⊎ OneOf rest s

-- The section that an offset belongs to: it begins at or before it, and no section that does
-- begins later.
pub record IsSource (sections : List NormalizedSection) (offset : ℕ) (s : NormalizedSection)
    : Type 0 where
  pub member : OneOf sections s
  pub before : s.locator.char_start ≤ℤ pos offset
  pub latest :
      All
        (λ t. t.locator.char_start ≤ℤ pos offset → t.locator.char_start ≤ℤ s.locator.char_start)
        sections
  pub valid : Locator.IsValid s.locator

later_only :
    (at offset : ℕ) (sections : List NormalizedSection)
    → LaidOut at sections
    → offset < at
    → section_at_offset sections offset ≡ err value_error
unfolding section_at_offset
later_only at offset [] h lt = refl
later_only at offset (s ∷ rest) (here, later) lt =
    let none_later = later_only (at + (length s.text + 2)) offset rest later (omega arith) in
    ground (arith, here.start)

never_before :
    (at offset : ℕ) (sections : List NormalizedSection) (s : NormalizedSection)
    → LaidOut at sections
    → offset < at
    → All
        (λ t. t.locator.char_start ≤ℤ pos offset → t.locator.char_start ≤ℤ s.locator.char_start)
        sections
never_before at offset [] s h lt = tt
never_before at offset (t ∷ rest) s (here, later) lt = (
  λ le. absurd (ground (arith, here.start)),
  never_before (at + (length t.text + 2)) offset rest s later (omega arith),
)

first_of_all :
    (at offset : ℕ) (s : NormalizedSection) (rest : List NormalizedSection)
    → BeginsAt at s
    → at ≤ offset
    → section_at_offset rest offset ≡ err value_error
    → All
        (λ t. t.locator.char_start ≤ℤ pos offset → t.locator.char_start ≤ℤ s.locator.char_start)
        rest
    → (section_at_offset (s ∷ rest) offset ≡ ok s) × IsSource (s ∷ rest) offset s
unfolding section_at_offset
first_of_all at offset s rest here le none_later never =
    let reached : ltb_ℤ (pos offset) s.locator.char_start ≡ false = ground (arith, here.start) in
    (
      rw none_later (rw reached),
      record {
        member = inl refl;
        before = ground (arith, here.start);
        latest = (λ _. omega arith, never);
        valid = here.valid;
      },
    )

found_further :
    (offset : ℕ) (s t : NormalizedSection) (rest : List NormalizedSection)
    → section_at_offset rest offset ≡ ok t
    → section_at_offset (s ∷ rest) offset ≡ ok t
unfolding section_at_offset
found_further offset s t rest e = rw e

section_at_offset-from :
    (at offset : ℕ) (s : NormalizedSection) (rest : List NormalizedSection)
    → LaidOut at (s ∷ rest)
    → at ≤ offset
    → (t : NormalizedSection) × (section_at_offset (s ∷ rest) offset ≡ ok t)
      × IsSource (s ∷ rest) offset t
      × (pos at ≤ℤ t.locator.char_start)
section_at_offset-from at offset s [] (here, _) le =
    let (found, source) =
      first_of_all at offset s [] here le (unfold section_at_offset in refl) tt in
    (s, found, source, ground (arith, here.start))
section_at_offset-from at offset s (t ∷ rest) (here, later) le =
    let next : ℕ = at + (length s.text + 2) in
    elim (dec_le next offset) [
      | yes further ↦
          let (u, found, source, low) = section_at_offset-from next offset t rest later further in
          (
            u,
            found_further offset s u (t ∷ rest) found,
            record {
              member = inr source.member;
              before = source.before;
              latest = (λ _. ground (arith, here.start), source.latest);
              valid = source.valid;
            },
            omega arith,
          )
      | no here_only ↦
          let (found, source) =
            first_of_all at offset s (t ∷ rest) here le
              (later_only next offset (t ∷ rest) later (omega arith))
              (never_before next offset (t ∷ rest) s later (omega arith)) in
          (s, found, source, ground (arith, here.start))
    ]

-- Every offset of a text whose sections are laid out from its first character on has a source:
-- the lookup does not raise, and it gives the last section that begins at or before the offset.
pub section_at_offset-IsSource :
    (s : NormalizedSection) (rest : List NormalizedSection) (offset : ℕ)
    → LaidOut 0 (s ∷ rest)
    → (t : NormalizedSection) × (section_at_offset (s ∷ rest) offset ≡ ok t)
      × IsSource (s ∷ rest) offset t
section_at_offset-IsSource s rest offset h =
    let (t, found, source, _) = section_at_offset-from 0 offset s rest h (omega arith) in
    (t, found, source)
