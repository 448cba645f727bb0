-- ===== src/Ingestion/Extraction.antt =====
-- knowledge_search/ingestion/extraction.py. The decoder, `splitlines`, the tokens of `markdown_it`
-- and the reader of `pypdf` are parameters.
pub mod Headings
pub mod Sections
pub mod Pages
pub mod Preparing
use enterprise_knowledge_sea.Common.{
  ℕ, suc, ◌+◌, Bool, true, false, ◌&&◌, not, Option, none, some, Text, codes, text_eq, strip, blank,
  is_empty, List, [], ◌∷◌, ◌++◌, map, length, take, slice, if◌then◌else◌, ℤ, pos, ltb, ltb_ℤ,
}
use enterprise_knowledge_sea.Status.{DocumentMediaType, pdf, markdown, text}
use enterprise_knowledge_sea.Errors.{
  Error, Result, ok, err, raise_if, ◌>>=◌, ◌>>◌, ingestion_error, invalid_text_encoding,
  no_extractable_text, invalid_pdf, encrypted_pdf, pdf_page_limit_exceeded, value_error, type_error,
  key_error, index_error,
}
use enterprise_knowledge_sea.Ingestion.Models.{ExtractedSection, extracted_post_init}

-- A block token: its type, the first line of its `map` where it has one, its tag and content.
pub record Token : Type 0 where
  pub kind : Text
  pub first_line : Option ℕ
  pub tag : Text
  pub content : Text

-- What `is_encrypted`, `pages` and `extract_text` of each page return or raise.
pub record PdfDocument : Type 0 where
  pub is_encrypted : Result Bool
  pub pages : Result (List (Result (Option Text)))

pub record Parsers (Source : Type 0) : Type 0 where
  -- the content decoded with "utf-8-sig", where it can be
  pub decode : Source → Option Text
  -- `text.splitlines(keepends=True)`
  pub split_lines : Text → List Text
  pub parse : Text → List Token
  -- `int(text)`
  pub int_of : Text → Option ℤ
  -- `PdfReader(source, strict=False)`: none for a `PdfReadError` or a `ValueError`
  pub read_pdf : Source → Option PdfDocument

-- `"".join(lines)` and `list.reverse`
unfoldable pub concat : List Text → Text
concat [] = []
concat (l ∷ lines) = l ++ concat lines

unfoldable pub reversed : {A : Type 0} → List A → List A → List A
reversed [] done = done
reversed (a ∷ more) done = reversed more (a ∷ done)

-- `tag.removeprefix("h")`
unfoldable pub without_h : Text → Text
without_h [] = []
without_h (c ∷ t) = if text_eq (c ∷ []) (codes "h") then t else c ∷ t

pub record Heading : Type 0 where
  pub line : ℕ
  pub level : ℤ
  pub title : Text

module _ {Source : Type 0} (p : Parsers Source) where
  -- `_read_utf8`
  unfoldable pub read_utf8 : Source → Result Text
  read_utf8 source = elim (p.decode source) [
    | none ↦ err (ingestion_error invalid_text_encoding)
    | some content ↦ ok content
  ]

  -- the text of a source that is not blank
  unfoldable pub read_filled : Source → Result Text
  read_filled source = do
    content ← read_utf8 source
    raise_if (blank content) (ingestion_error no_extractable_text)
    ok content

  -- `TextExtractor.extract`
  unfoldable pub extract_text : Source → Result (List ExtractedSection)
  extract_text source = do
    content ← read_filled source
    section ← extracted_post_init (record { text = content; section_path = []; page_number = none })
    ok (section ∷ [])

  -- the heading that a token opens, with the content of the token after it
  unfoldable pub heading_of : ℕ → Text → List Token → Result (Option Heading)
  heading_of line tag [] = err index_error
  heading_of line tag (inline ∷ rest) = elim (p.int_of (without_h tag)) [
    | none ↦ err value_error
    | some level ↦
        if is_empty (strip inline.content)
        then ok none
        else ok (some (record { line = line; level = level; title = strip inline.content }))
  ]

  -- the loop over the tokens
  unfoldable pub collect_headings : List Token → Result (List Heading)
  collect_headings [] = ok []
  collect_headings (t ∷ rest) =
      let more = collect_headings rest in
      elim t.first_line [
        | none ↦ more
        | some line ↦ if not (text_eq t.kind (codes "heading_open")) then more else do
          found ← heading_of line t.tag rest
          headings ← more
          elim found [ none ↦ ok headings | some h ↦ ok (h ∷ headings) ]
      ]

-- `while heading_stack and heading_stack[-1][0] >= level: heading_stack.pop()`, for a stack whose
-- top comes first
unfoldable pub pop_headings : ℤ → List Heading → List Heading
pop_headings level [] = []
pop_headings level (h ∷ stack) =
    let rest = pop_headings level stack in if ltb_ℤ h.level level then h ∷ stack else rest

-- `tuple(item[1] for item in heading_stack)`
unfoldable pub stack_path : List Heading → List Text
stack_path stack = reversed (map (λ h. h.title) stack) []

-- the line of the next heading, or the number of lines
unfoldable pub next_line : List Heading → List Text → ℕ
next_line [] lines = length lines
next_line (h ∷ rest) lines = h.line

unfoldable pub body_of : Heading → List Heading → List Text → Text
body_of h rest lines = concat (slice (suc h.line) (next_line rest lines) lines)

-- the section of a heading, with the path of the stack that it tops
unfoldable pub section_of : Heading → List Heading → List Text → List Text → Result ExtractedSection
section_of h rest path lines = extracted_post_init (record {
  text = h.title ++ (10 ∷ body_of h rest lines);
  section_path = path;
  page_number = none;
})

-- the loop over the headings, with the stack before each
unfoldable pub heading_sections :
    List Heading → List Text → List Heading → Result (List ExtractedSection)
heading_sections stack lines [] = ok []
heading_sections stack lines (h ∷ rest) =
    let pushed = h ∷ pop_headings h.level stack in
    let more = heading_sections pushed lines rest in
    if blank (body_of h rest lines) then more else do
      section ← section_of h rest (stack_path pushed) lines
      sections ← more
      ok (section ∷ sections)

-- the sections of a text with headings
unfoldable pub headed_sections : List Text → Heading → List Heading → Result (List ExtractedSection)
headed_sections lines h rest =
    let preamble = concat (take h.line lines) in
    let sections = heading_sections [] lines (h ∷ rest) in
    if blank preamble then sections else do
      first ←
          extracted_post_init (record { text = preamble; section_path = []; page_number = none })
      others ← sections
      ok (first ∷ others)

-- `page.extract_text() or ""`, with the exceptions that are caught
abbrev pub page_text_of : Result (Option Text) → Result Text
page_text_of (ok none) = ok []
page_text_of (ok (some t)) = ok t
page_text_of (err key_error) = err (ingestion_error invalid_pdf)
page_text_of (err type_error) = err (ingestion_error invalid_pdf)
page_text_of (err value_error) = err (ingestion_error invalid_pdf)
page_text_of (err e) = err e

-- the loop over the pages, numbered from one
unfoldable pub page_sections : ℕ → List (Result (Option Text)) → Result (List ExtractedSection)
page_sections number [] = ok []
page_sections number (page ∷ pages) =
    let more = page_sections (suc number) pages in
    page_text_of page >>= λ page_text. if blank page_text then more else do
      section ←
          extracted_post_init
            (record { text = page_text; section_path = []; page_number = some (pos number) })
      sections ← more
      ok (section ∷ sections)

module _ {Source : Type 0} (p : Parsers Source) where
  -- the sections of a text with the headings that were found
  unfoldable pub sections_of_text : Text → List Heading → Result (List ExtractedSection)
  sections_of_text content [] = do
    section ← extracted_post_init (record { text = content; section_path = []; page_number = none })
    ok (section ∷ [])
  sections_of_text content (h ∷ rest) = headed_sections (p.split_lines content) h rest

  -- `MarkdownExtractor.extract`
  unfoldable pub extract_markdown : Source → Result (List ExtractedSection)
  extract_markdown source = do
    content ← read_filled p source
    headings ← collect_headings p (p.parse content)
    sections_of_text content headings

  -- `PdfExtractor.extract`
  unfoldable pub extract_pdf : ℤ → Source → Result (List ExtractedSection)
  extract_pdf max_pages source = elim (p.read_pdf source) [
    | none ↦ err (ingestion_error invalid_pdf)
    | some reader ↦ do
      encrypted ← reader.is_encrypted
      raise_if encrypted (ingestion_error encrypted_pdf)
      pages ← reader.pages
      raise_if (ltb_ℤ max_pages (pos (length pages))) (ingestion_error pdf_page_limit_exceeded)
      sections ← page_sections 1 pages
      raise_if (is_empty sections) (ingestion_error no_extractable_text)
      ok sections
  ]

  -- the extractor that `DocumentExtractorRegistry.get` gives, applied
  unfoldable pub extract : ℤ → DocumentMediaType → Source → Result (List ExtractedSection)
  extract max_pages text = extract_text p
  extract max_pages markdown = extract_markdown
  extract max_pages pdf = extract_pdf max_pages
