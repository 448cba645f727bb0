-- ===== src/Ingestion/Extraction/Headings.antt =====
-- The heading stack of the Markdown extractor against an outline by ancestors.
use enterprise_knowledge_sea.Common.{
  ◌≡◌, refl, false, ◌∙◌, ap, arith, Text, List, [], ◌∷◌, if◌then◌else◌, ℤ, ltb_ℤ, blank, Bool-cases,
  inl, inr,
}
use enterprise_knowledge_sea.Errors.{Result, ok, ◌>>=◌}
use enterprise_knowledge_sea.Ingestion.Models.{ExtractedSection}
use enterprise_knowledge_sea.Ingestion.Extraction.{
  Heading, pop_headings, stack_path, body_of, section_of, heading_sections,
}

-- The headings above a level, nearest first: the nearest preceding heading of a smaller level, then
-- those above that one.
abbrev pub ancestors : ℤ → List Heading → List Heading
ancestors level [] = []
ancestors level (h ∷ before) =
    let above = ancestors h.level before in
    let near = ancestors level before in if ltb_ℤ h.level level then h ∷ above else near

-- The sections of headings after some, latest first, each under its ancestors.
abbrev pub outline : List Heading → List Text → List Heading → Result (List ExtractedSection)
outline before lines [] = ok []
outline before lines (h ∷ rest) =
    let more = outline (h ∷ before) lines rest in
    if blank (body_of h rest lines) then more else do
      section ← section_of h rest (stack_path (h ∷ ancestors h.level before)) lines
      sections ← more
      ok (section ∷ sections)

-- the stack after some headings, latest first
abbrev stack_after : List Heading → List Heading
stack_after [] = []
stack_after (h ∷ before) = h ∷ pop_headings h.level (stack_after before)

pop-pop :
    (l k : ℤ) (stack : List Heading)
    → ltb_ℤ k l ≡ false
    → pop_headings l (pop_headings k stack) ≡ pop_headings l stack
unfolding pop_headings
pop-pop l k [] h = refl
pop-pop l k (g ∷ stack) h = elim (Bool-cases (ltb_ℤ g.level k)) [
  | inl e ↦ rw e refl
  | inr e ↦ let f : ltb_ℤ g.level l ≡ false = ground arith in rw (e, f) (pop-pop l k stack h)
]

pop_ancestors :
    (l : ℤ) (before : List Heading) → pop_headings l (stack_after before) ≡ ancestors l before
unfolding pop_headings
pop_ancestors l [] = refl
pop_ancestors l (h ∷ before) = elim (Bool-cases (ltb_ℤ h.level l)) [
  | inl e ↦ rw e (ap (λ s. h ∷ s) (pop_ancestors h.level before))
  | inr e ↦ rw e (pop-pop l h.level (stack_after before) e ∙ pop_ancestors l before)
]

sections_after :
    (before : List Heading) (lines : List Text) (headings : List Heading)
    → heading_sections (stack_after before) lines headings ≡ outline before lines headings
unfolding heading_sections
sections_after before lines [] = refl
sections_after before lines (h ∷ rest) =
    let path = pop_ancestors h.level before in
    let more = sections_after (h ∷ before) lines rest in rw (more, path) refl

-- The heading stack of the Markdown extractor gives each section the path of its heading's
-- ancestors, found by going back over the headings: the nearest of a smaller level, and theirs.
pub heading_sections-outline :
    (lines : List Text) (headings : List Heading)
    → heading_sections [] lines headings ≡ outline [] lines headings
heading_sections-outline lines headings = sections_after [] lines headings
