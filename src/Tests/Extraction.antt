-- ===== src/Tests/Extraction.antt =====
-- A Markdown text and a PDF with their sections.
use enterprise_knowledge_sea.Common.{
  ℕ, ◌+◌, ◌-◌, ◌≡◌, refl, false, Option, none, some, ◌⊎◌, Text, codes, text_eq, strip, blank,
  is_space, is_empty, List, [], ◌∷◌, length, ℤ, pos, ◌≤ℤ◌,
}
use enterprise_knowledge_sea.Status.{DocumentStatus}
use enterprise_knowledge_sea.Errors.{
  Error, Result, ok, err, ingestion_error, no_extractable_text, value_error,
}
use enterprise_knowledge_sea.Domain.Document.{Document}
use enterprise_knowledge_sea.Domain.Chunk.{Chunk}
use enterprise_knowledge_sea.Ingestion.Models.{
  ExtractedSection, NormalizedSection, joined, extracted_post_init,
}
use enterprise_knowledge_sea.Ingestion.Pipeline.{normalize_from, normalize_sections, section_aware}
use enterprise_knowledge_sea.Ingestion.Pipeline.Whole.{AreExact}
use enterprise_knowledge_sea.Ingestion.Extraction.{
  Token, PdfDocument, Parsers, Heading, read_utf8, read_filled, without_h, heading_of,
  collect_headings, concat, reversed, pop_headings, stack_path, next_line, body_of, section_of,
  heading_sections, headed_sections, sections_of_text, extract_markdown, page_sections, extract_pdf,
  extract,
}
use enterprise_knowledge_sea.Ingestion.Extraction.Headings.{outline, heading_sections-outline}
use enterprise_knowledge_sea.Ingestion.Extraction.Pages.{ArePaged, extract_pdf_returned}
use enterprise_knowledge_sea.Ingestion.Extraction.Preparing.{prepare, prepare_outcomes}
use enterprise_knowledge_sea.Platform.{encodable}
use enterprise_knowledge_sea.Tests.{platform, platform_laws, document}
use enterprise_knowledge_sea.Tests.Pipeline.{two_tokens, smaller}

abbrev heading : ℕ → Text → Token
heading line tag = record {
  kind = codes "heading_open";
  first_line = some line;
  tag = tag;
  content = [];
}

abbrev inline : Text → Token
inline content = record { kind = codes "inline"; first_line = none; tag = []; content = content }

abbrev lines : List Text
lines =
    codes "before\n"
    ∷ codes "# A\n"
    ∷ codes "one\n"
    ∷ codes "## B\n"
    ∷ codes "two\n"
    ∷ codes "# C\n"
    ∷ codes "three"
    ∷ []

abbrev tokens : List Token
tokens =
    inline (codes "before")
    ∷ heading 1 (codes "h1")
    ∷ inline (codes "A")
    ∷ heading 3 (codes "h2")
    ∷ inline (codes "B")
    ∷ heading 5 (codes "h1")
    ∷ inline (codes "C")
    ∷ []

abbrev digit : Text → Option ℤ
digit (c ∷ []) = some (pos (c - b'0'))
digit _ = none

-- a text, or the pages of a PDF
abbrev parsers : Parsers (List (Result (Option Text)))
parsers = record {
  decode = λ source. some (codes "before\n# A\none\n## B\ntwo\n# C\nthree");
  split_lines = λ t. lines;
  parse = λ t. tokens;
  int_of = digit;
  read_pdf = λ pages. some (record { is_encrypted = ok false; pages = ok pages });
}

abbrev section : Text → List Text → Option ℤ → ExtractedSection
section content path page = record { text = content; section_path = path; page_number = page }

-- B stands under A, and C does not
markdown_test :
    extract_markdown parsers []
    ≡ ok (
        section (codes "before\n") [] none
        ∷ section (codes "A\none\n") (codes "A" ∷ []) none
        ∷ section (codes "B\ntwo\n") (codes "A" ∷ codes "B" ∷ []) none
        ∷ section (codes "C\nthree") (codes "C" ∷ []) none
        ∷ [])
unfolding extract_markdown read_filled read_utf8 sections_of_text collect_headings heading_of
    without_h strip headed_sections heading_sections section_of body_of next_line concat
    pop_headings stack_path reversed extracted_post_init blank text_eq is_space
markdown_test = refl

abbrev pages : List (Result (Option Text))
pages = ok (some (codes "one")) ∷ ok none ∷ ok (some (codes "two")) ∷ []

abbrev paged : List ExtractedSection
paged = section (codes "one") [] (some (pos 1)) ∷ section (codes "two") [] (some (pos 3)) ∷ []

pdf_test : extract_pdf parsers (pos 3) pages ≡ ok paged
unfolding extract_pdf page_sections extracted_post_init blank strip is_space
pdf_test = refl

extract_pdf_returned_example :
    (reader : PdfDocument) × (parsers.read_pdf pages ≡ some reader)
    × (reader.is_encrypted ≡ ok false)
    × (found : List (Result (Option Text))) × (reader.pages ≡ ok found)
    × (pos (length found) ≤ℤ pos 3)
    × (is_empty paged ≡ false)
    × ArePaged 1 (1 + length found) paged
extract_pdf_returned_example = extract_pdf_returned parsers (pos 3) pages paged pdf_test

abbrev guide : Document
guide = document DocumentStatus.queued 2 none

prepare_outcomes_example :
    let prepared = prepare section_aware platform two_tokens parsers (pos 3) guide pages in
    let extracted = extract parsers (pos 3) guide.media_type pages in
    ((e : Error) × (extracted ≡ err e) × (prepared ≡ err e))
    ⊎ ((xs : List ExtractedSection) × (extracted ≡ ok xs)
        × (((normalize_from platform 0 xs ≡ ok [])
              × (prepared ≡ err (ingestion_error no_extractable_text)))
            ⊎ ((sections : List NormalizedSection) × (normalize_sections platform xs ≡ ok sections)
                × (((encodable (joined sections) ≡ false) × (prepared ≡ err value_error))
                    ⊎ ((chunks : List Chunk) × (prepared ≡ ok chunks)
                        × AreExact platform 2 guide.id (joined sections) chunks)))))
prepare_outcomes_example =
    prepare_outcomes section_aware platform platform_laws two_tokens parsers (pos 3) guide pages
      smaller

-- the headings of `lines`
abbrev headings : List Heading
headings =
    record { line = 1; level = pos 1; title = codes "A" }
    ∷ record { line = 3; level = pos 2; title = codes "B" }
    ∷ record { line = 5; level = pos 1; title = codes "C" }
    ∷ []

heading_sections-outline_example : heading_sections [] lines headings ≡ outline [] lines headings
heading_sections-outline_example = heading_sections-outline lines headings
