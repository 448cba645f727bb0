-- ===== src/Ingestion/Extraction/Sections.antt =====
-- What the sections of an extraction are like.
use enterprise_knowledge_sea.Common.{
  ℕ, ◌≡◌, refl, false, none, some, ◌⊎◌, inl, inr, ◌∙◌, ap, sym, subst, arith, Text, codes, List, [],
  ◌∷◌, All, take, blank, strip_visible, ℤ, ltb_ℤ, Bool-cases, Option-cases, map, text_eq,
}
use enterprise_knowledge_sea.Errors.{ok, Result-cases, >>=-eq-ok, ◌>>=◌}
use enterprise_knowledge_sea.Domain.Locator.{any_blank, page_below_one}
use enterprise_knowledge_sea.Ingestion.Models.{ExtractedSection, extracted_post_init}
use enterprise_knowledge_sea.Ingestion.Extraction.{
  Token, Parsers, Heading, concat, reversed, without_h, read_filled, extract_text, heading_of,
  collect_headings, pop_headings, stack_path, body_of, section_of, heading_sections,
  headed_sections, sections_of_text, extract_markdown,
}

-- A section that the chunkers can cite.
pub record IsFit (s : ExtractedSection) : Type 0 where
  pub text : blank s.text ≡ false
  pub path : any_blank s.section_path ≡ false
  pub page : page_below_one s.page_number ≡ false

abbrev IsTitled : Heading → Type 0
IsTitled h = blank h.title ≡ false

heading_of-IsTitled :
    {Source : Type 0} (p : Parsers Source) (line : ℕ) (tag : Text) (rest : List Token) (h : Heading)
    → heading_of p line tag rest ≡ ok (some h)
    → IsTitled h
unfolding heading_of
heading_of-IsTitled p line tag [] h e = ground arith
heading_of-IsTitled p line tag (inline ∷ rest) h e =
    elim (Option-cases (p.int_of (without_h tag))) [
      | inl f ↦ ground arith
      | inr (level, f) ↦ ground (arith, strip_visible inline.content)
    ]

-- what the first token adds
collected :
    {Source : Type 0} (p : Parsers Source) (t : Token) (rest : List Token) (hs : List Heading)
    → collect_headings p (t ∷ rest) ≡ ok hs
    → (collect_headings p rest ≡ ok hs)
      ⊎ ((line : ℕ) × (h : Heading) × (more : List Heading) × (heading_of p line t.tag rest
            ≡ ok (some h))
          × (collect_headings p rest ≡ ok more)
          × (hs ≡ h ∷ more))
unfolding collect_headings
collected p t rest hs e = elim (Option-cases t.first_line) [
  | inl f ↦ inl (ground arith)
  | inr (line, f) ↦ elim (Bool-cases (text_eq t.kind (codes "heading_open"))) [
    | inr g ↦ inl (ground arith)
    | inl g ↦ elim (Result-cases (heading_of p line t.tag rest)) [
      | inr (x, k) ↦ ground arith
      | inl (found, k) ↦ elim (Result-cases (collect_headings p rest)) [
        | inr (x, l) ↦ ground arith
        | inl (more, l) ↦ elim (Option-cases found) [
          | inl m ↦ inl (ground arith)
          | inr (h, m) ↦ inr (line, h, more, k ∙ ap ok m, l, ground arith)
        ]
      ]
    ]
  ]
]

collect_headings-IsTitled :
    {Source : Type 0} (p : Parsers Source) (tokens : List Token) (hs : List Heading)
    → collect_headings p tokens ≡ ok hs
    → All IsTitled hs
unfolding collect_headings
collect_headings-IsTitled p [] [] e = tt
collect_headings-IsTitled p [] (h ∷ hs) e = ground arith
collect_headings-IsTitled p (t ∷ rest) hs e = elim (collected p t rest hs e) [
  | inl f ↦ collect_headings-IsTitled p rest hs f
  | inr (line, h, more, f, g, k) ↦
      subst (All IsTitled) (sym k)
        (heading_of-IsTitled p line t.tag rest h f, collect_headings-IsTitled p rest more g)
]

pop_headings-IsTitled :
    (l : ℤ) (stack : List Heading) → All IsTitled stack → All IsTitled (pop_headings l stack)
unfolding pop_headings
pop_headings-IsTitled l [] a = tt
pop_headings-IsTitled l (h ∷ stack) a = elim (Bool-cases (ltb_ℤ h.level l)) [
  | inl e ↦ rw e a
  | inr e ↦ rw e (pop_headings-IsTitled l stack a.1)
]

reversed-filled :
    (stack : List Heading) (done : List Text)
    → All IsTitled stack
    → any_blank done ≡ false
    → any_blank (reversed (map (λ h. h.title) stack) done) ≡ false
unfolding reversed
reversed-filled [] done a b = b
reversed-filled (h ∷ stack) done a b =
    reversed-filled stack (h.title ∷ done) a.1 (ground (arith, a.0, b))

section_of-IsFit :
    (h : Heading) (rest stack : List Heading) (lines : List Text) (s : ExtractedSection)
    → All IsTitled stack
    → blank (body_of h rest lines) ≡ false
    → section_of h rest (stack_path stack) lines ≡ ok s
    → IsFit s
unfolding section_of stack_path extracted_post_init
section_of-IsFit h rest stack lines s a b e =
    let path = reversed-filled stack [] a refl in
    let fit : (blank s.text ≡ false)
        × (s.section_path ≡ stack_path stack)
        × (s.page_number ≡ none) =
      ground arith in
    record { text = fit.0; path = ap any_blank fit.1 ∙ path; page = ap page_below_one fit.2 }

heading_sections-IsFit :
    (stack : List Heading) (lines : List Text) (hs : List Heading) (xs : List ExtractedSection)
    → All IsTitled stack
    → All IsTitled hs
    → heading_sections stack lines hs ≡ ok xs
    → All IsFit xs
unfolding heading_sections
heading_sections-IsFit stack lines [] [] a b e = tt
heading_sections-IsFit stack lines [] (x ∷ xs) a b e = ground arith
heading_sections-IsFit stack lines (h ∷ rest) xs a b e =
    let pushed = h ∷ pop_headings h.level stack in
    let above : All IsTitled pushed = (b.0, pop_headings-IsTitled h.level stack a) in
    elim (Bool-cases (blank (body_of h rest lines))) [
      | inl f ↦ heading_sections-IsFit pushed lines rest xs above b.1 (ground arith)
      | inr f ↦ elim (Result-cases (section_of h rest (stack_path pushed) lines)) [
        | inr (x, g) ↦ ground arith
        | inl (s, g) ↦ elim (Result-cases (heading_sections pushed lines rest)) [
          | inr (x, k) ↦ ground arith
          | inl (more, k) ↦
              let all : s ∷ more ≡ xs = ground arith in
              subst (All IsFit) all (
                section_of-IsFit h rest pushed lines s above f g,
                heading_sections-IsFit pushed lines rest more above b.1 k,
              )
        ]
      ]
    ]

-- a section without a path or a page
plain-IsFit :
    (content : Text) (s : ExtractedSection)
    → extracted_post_init (record { text = content; section_path = []; page_number = none }) ≡ ok s
    → IsFit s
unfolding extracted_post_init
plain-IsFit content s e =
    let fit : (blank s.text ≡ false) × (s.section_path ≡ []) × (s.page_number ≡ none) =
      ground arith in
    record { text = fit.0; path = ap any_blank fit.1; page = ap page_below_one fit.2 }

headed_sections-IsFit :
    (lines : List Text) (h : Heading) (rest : List Heading) (xs : List ExtractedSection)
    → All IsTitled (h ∷ rest)
    → headed_sections lines h rest ≡ ok xs
    → All IsFit xs
unfolding headed_sections
headed_sections-IsFit lines h rest xs a e = elim (Bool-cases (blank (concat (take h.line lines)))) [
  | inl f ↦ heading_sections-IsFit [] lines (h ∷ rest) xs tt a (ground arith)
  | inr f ↦
      let preamble : ExtractedSection = record {
        text = concat (take h.line lines);
        section_path = [];
        page_number = none;
      } in
      elim (Result-cases (extracted_post_init preamble)) [
        | inr (x, g) ↦ ground arith
        | inl (s, g) ↦ elim (Result-cases (heading_sections [] lines (h ∷ rest))) [
          | inr (x, k) ↦ ground arith
          | inl (more, k) ↦
              let all : s ∷ more ≡ xs = ground arith in
              subst (All IsFit) all
                (plain-IsFit _ s g, heading_sections-IsFit [] lines (h ∷ rest) more tt a k)
        ]
      ]
]

module _ {Source : Type 0} (p : Parsers Source) where
  plain_sections-IsFit :
      (content : Text) (xs : List ExtractedSection)
      → (extracted_post_init (record { text = content; section_path = []; page_number = none })
          >>= λ section. ok (section ∷ []))
        ≡ ok xs
      → All IsFit xs
  plain_sections-IsFit content xs e =
      let (s, f, g) = >>=-eq-ok (extracted_post_init _) _ e in
      let all : s ∷ [] ≡ xs = ground arith in subst (All IsFit) all (plain-IsFit content s f, tt)

  pub extract_text-IsFit :
      (source : Source) (xs : List ExtractedSection) → extract_text p source ≡ ok xs → All IsFit xs
  unfolding extract_text
  extract_text-IsFit source xs e =
      let (content, f, g) = >>=-eq-ok (read_filled p source) _ e in
      plain_sections-IsFit content xs g

  of_headings :
      (content : Text) (hs : List Heading)
      → All IsTitled hs
      → (xs : List ExtractedSection) → sections_of_text p content hs ≡ ok xs
      → All IsFit xs
  unfolding sections_of_text
  of_headings content [] a xs e = plain_sections-IsFit content xs e
  of_headings content (h ∷ rest) a xs e =
      headed_sections-IsFit (p.split_lines content) h rest xs a e

  pub extract_markdown-IsFit :
      (source : Source) (xs : List ExtractedSection)
      → extract_markdown p source ≡ ok xs
      → All IsFit xs
  unfolding extract_markdown
  extract_markdown-IsFit source xs e =
      let (content, f, g) = >>=-eq-ok (read_filled p source) _ e in
      let (hs, k, l) = >>=-eq-ok (collect_headings p (p.parse content)) _ g in
      let titled = collect_headings-IsTitled p (p.parse content) hs k in
      of_headings content hs titled xs l
