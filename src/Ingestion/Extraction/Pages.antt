-- ===== src/Ingestion/Extraction/Pages.antt =====
-- The sections that the PDF extractor makes of pages.
use enterprise_knowledge_sea.Common.{
  ℕ, suc, ◌+◌, ◌≤◌, ◌<◌, ◌≡◌, false, some, ◌∙◌, ap, subst, arith, Text, List, [], ◌∷◌, length,
  blank, is_empty, ℤ, pos, ◌≤ℤ◌, Bool-cases, inl, inr, Option, Option-cases, All,
}
use enterprise_knowledge_sea.Errors.{Result, ok, Result-cases}
use enterprise_knowledge_sea.Domain.Locator.{any_blank, page_below_one}
use enterprise_knowledge_sea.Ingestion.Models.{ExtractedSection, extracted_post_init}
use enterprise_knowledge_sea.Ingestion.Extraction.{
  PdfDocument, Parsers, page_sections, page_text_of, extract_pdf,
}
use enterprise_knowledge_sea.Ingestion.Extraction.Sections.{IsFit}

-- Filled sections with page numbers that increase, from a number on and below another.
abbrev pub ArePaged : ℕ → ℕ → List ExtractedSection → Type 0
ArePaged low high [] = Unit
ArePaged low high (x ∷ xs) =
    (n : ℕ) × (x.page_number ≡ some (pos n))
    × (low ≤ n)
    × (n < high)
    × IsFit x
    × ArePaged (suc n) high xs

ArePaged-later :
    (low high : ℕ) (xs : List ExtractedSection) → ArePaged (suc low) high xs → ArePaged low high xs
ArePaged-later low high [] a = tt
ArePaged-later low high (x ∷ xs) (n, e, l, h, f, rest) = (n, e, omega (arith, l), h, f, rest)

page_section :
    (content : Text) (n : ℕ) (s : ExtractedSection)
    → 1 ≤ n
    → extracted_post_init (record { text = content; section_path = []; page_number = some (pos n) })
      ≡ ok s
    → (s.page_number ≡ some (pos n)) × IsFit s
unfolding extracted_post_init
page_section content n s l e =
    let fit : (blank s.text ≡ false) × (s.section_path ≡ []) × (s.page_number ≡ some (pos n)) =
      ground arith in
    (
      fit.2,
      record {
        text = fit.0;
        path = ap any_blank fit.1;
        page = ap page_below_one fit.2 ∙ ground arith;
      },
    )

page_sections-ArePaged :
    (n : ℕ) (pages : List (Result (Option Text))) (xs : List ExtractedSection)
    → 1 ≤ n
    → page_sections n pages ≡ ok xs
    → ArePaged n (n + length pages) xs
unfolding page_sections
page_sections-ArePaged n [] [] l e = tt
page_sections-ArePaged n [] (x ∷ xs) l e = ground arith
page_sections-ArePaged n (page ∷ pages) xs l e = elim (Result-cases (page_text_of page)) [
  | inr (x, f) ↦ ground arith
  | inl (content, f) ↦ elim (Bool-cases (blank content)) [
    | inl g ↦
        subst (λ k. ArePaged n k xs) (omega arith)
          (ArePaged-later n (suc n + length pages) xs
            (page_sections-ArePaged (suc n) pages xs (omega (arith, l)) (ground arith)))
    | inr g ↦
        let section : ExtractedSection = record {
          text = content;
          section_path = [];
          page_number = some (pos n);
        } in
        elim (Result-cases (extracted_post_init section)) [
          | inr (x, k) ↦ ground arith
          | inl (s, k) ↦ elim (Result-cases (page_sections (suc n) pages)) [
            | inr (x, m) ↦ ground arith
            | inl (more, m) ↦
                let all : s ∷ more ≡ xs = ground arith in
                let (number, fit) = page_section content n s l k in
                let rest = page_sections-ArePaged (suc n) pages more (omega (arith, l)) m in
                subst (ArePaged n (n + length (page ∷ pages))) all (
                  n,
                  number,
                  omega arith,
                  omega arith,
                  fit,
                  subst (λ h. ArePaged (suc n) h more) (omega arith) rest,
                )
          ]
        ]
  ]
]

ArePaged-IsFit : (low high : ℕ) (xs : List ExtractedSection) → ArePaged low high xs → All IsFit xs
ArePaged-IsFit low high [] a = tt
ArePaged-IsFit low high (x ∷ xs) (n, _, _, _, f, rest) = (f, ArePaged-IsFit (suc n) high xs rest)

module _ {Source : Type 0} (p : Parsers Source) where
  -- An extraction of a PDF that returns had at most the configured number of pages and was not
  -- encrypted, and its sections, at least one and each with visible text, have page numbers of the
  -- document that increase.
  pub extract_pdf_returned :
      (max_pages : ℤ) (source : Source) (xs : List ExtractedSection)
      → extract_pdf p max_pages source ≡ ok xs
      → (reader : PdfDocument) × (p.read_pdf source ≡ some reader)
        × (reader.is_encrypted ≡ ok false)
        × (pages : List (Result (Option Text))) × (reader.pages ≡ ok pages)
        × (pos (length pages) ≤ℤ max_pages)
        × (is_empty xs ≡ false)
        × ArePaged 1 (1 + length pages) xs
  unfolding extract_pdf
  extract_pdf_returned max_pages source xs e = elim (Option-cases (p.read_pdf source)) [
    | inl f ↦ ground arith
    | inr (reader, f) ↦ elim (Result-cases reader.is_encrypted) [
      | inr (x, g) ↦ ground arith
      | inl (encrypted, g) ↦ elim (Result-cases reader.pages) [
        | inr (x, k) ↦ ground arith
        | inl (pages, k) ↦ elim (Result-cases (page_sections 1 pages)) [
          | inr (x, m) ↦ ground arith
          | inl (all, m) ↦
              let same : all ≡ xs = ground arith in
              (
                reader,
                f,
                ground arith,
                pages,
                k,
                ground arith,
                ground arith,
                page_sections-ArePaged 1 pages xs (omega arith) (m ∙ ap ok same),
              )
        ]
      ]
    ]
  ]

  pub extract_pdf-IsFit :
      (max_pages : ℤ) (source : Source) (xs : List ExtractedSection)
      → extract_pdf p max_pages source ≡ ok xs
      → All IsFit xs
  extract_pdf-IsFit max_pages source xs e =
      let (reader, _, _, pages, _, _, _, paged) = extract_pdf_returned max_pages source xs e in
      ArePaged-IsFit 1 (1 + length pages) xs paged
