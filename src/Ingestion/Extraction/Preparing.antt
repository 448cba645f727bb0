-- ===== src/Ingestion/Extraction/Preparing.antt =====
-- `DocumentContentPreparer.prepare` of knowledge_search/ingestion/pipeline.py, from the source of a
-- document to its chunks.
use enterprise_knowledge_sea.Common.{
  ℕ, ◌+◌, ◌<◌, ◌≡◌, refl, ◌∙◌, false, ◌⊎◌, inl, inr, arith, List, [], ◌∷◌, All, length, is_empty, ℤ,
  pos, Bool-cases,
}
use enterprise_knowledge_sea.Status.{DocumentMediaType, pdf, markdown, text}
use enterprise_knowledge_sea.Errors.{
  Error, Result, ok, err, Result-cases, ◌>>=◌, ingestion_error, no_extractable_text, value_error,
}
use enterprise_knowledge_sea.Platform.{Platform, PlatformLaws, encodable}
use enterprise_knowledge_sea.Domain.Locator
use enterprise_knowledge_sea.Domain.Locator.{SourceLocator}
use enterprise_knowledge_sea.Domain.Document.{Document}
use enterprise_knowledge_sea.Domain.Chunk.{Chunk}
use enterprise_knowledge_sea.Ingestion.Models.{ExtractedSection, NormalizedSection, joined}
use enterprise_knowledge_sea.Ingestion.Normalize.{normalize_document_text}
use enterprise_knowledge_sea.Ingestion.Chunking.{Configuration}
use enterprise_knowledge_sea.Ingestion.Pipeline.{
  normalize_from, normalize_sections, ChunkingStrategy, prepare_extracted,
}
use enterprise_knowledge_sea.Ingestion.Pipeline.Whole.{
  AreExact, prepare_total, prepare_extracted-outcomes,
}
use enterprise_knowledge_sea.Ingestion.Extraction.{Parsers, extract}
use enterprise_knowledge_sea.Ingestion.Extraction.Sections.{
  IsFit, extract_text-IsFit, extract_markdown-IsFit,
}
use enterprise_knowledge_sea.Ingestion.Extraction.Pages.{extract_pdf-IsFit}

-- `prepare`
unfoldable pub prepare :
    {Source : Type 0}
    → ChunkingStrategy
    → Platform
    → Configuration
    → Parsers Source
    → ℤ
    → Document
    → Source
    → Result (List Chunk)
prepare strategy p c parsers max_pages document source =
    extract parsers max_pages document.media_type source >>= λ sections.
    prepare_extracted strategy p c document.id sections

extract-IsFit :
    {Source : Type 0} (parsers : Parsers Source) (max_pages : ℤ) (t : DocumentMediaType)
    (source : Source) (xs : List ExtractedSection)
    → extract parsers max_pages t source ≡ ok xs
    → All IsFit xs
unfolding extract
extract-IsFit parsers max_pages text = extract_text-IsFit parsers
extract-IsFit parsers max_pages markdown = extract_markdown-IsFit parsers
extract-IsFit parsers max_pages pdf = extract_pdf-IsFit parsers max_pages

-- Sections that are fit have locators that are accepted.
normalize_from_total :
    (p : Platform) (cursor : ℕ) (xs : List ExtractedSection)
    → All IsFit xs
    → (sections : List NormalizedSection) × (normalize_from p cursor xs ≡ ok sections)
unfolding normalize_from
normalize_from_total p cursor [] a = ([], refl)
normalize_from_total p cursor (x ∷ xs) a =
    let t = normalize_document_text p x.text in
    elim (Bool-cases (is_empty t)) [
      | inl e ↦ let (sections, f) = normalize_from_total p cursor xs a.1 in (sections, ground arith)
      | inr e ↦
          let (sections, f) = normalize_from_total p (cursor + (length t + 2)) xs a.1 in
          let locator : SourceLocator = record {
            section_path = x.section_path;
            page_number = x.page_number;
            char_start = pos cursor;
            char_end = pos (cursor + length t);
          } in
          let valid = Locator.post_init_of_IsValid locator (record {
            path = a.0.path;
            page = a.0.page;
            start = omega arith;
            range = omega arith;
          }) in
          (record { text = t; locator = locator } ∷ sections, rw (e, f, valid) refl)
    ]

normalize_sections-cases :
    (p : Platform) (xs : List ExtractedSection)
    → All IsFit xs
    → ((sections : List NormalizedSection) × (normalize_sections p xs ≡ ok sections))
      ⊎ ((normalize_from p 0 xs ≡ ok [])
          × (normalize_sections p xs ≡ err (ingestion_error no_extractable_text)))
normalize_sections-cases p xs a =
    let (sections, e) = normalize_from_total p 0 xs a in nothing_or_some sections e
  where
    nothing_or_some :
        (sections : List NormalizedSection)
        → normalize_from p 0 xs ≡ ok sections
        → ((sections : List NormalizedSection) × (normalize_sections p xs ≡ ok sections))
          ⊎ ((normalize_from p 0 xs ≡ ok [])
              × (normalize_sections p xs ≡ err (ingestion_error no_extractable_text)))
    nothing_or_some [] e = inr (e, unfold normalize_sections in rw e refl)
    nothing_or_some (s ∷ rest) e = inl (s ∷ rest, unfold normalize_sections in rw e refl)

-- With either chunker, any size and a smaller overlap, and whatever the parsers return, the
-- preparation of a source raises what the extraction raised; or the extraction returned, and the
-- preparation raises that there is no extractable text, where the extracted sections normalize to
-- none; or raises the encoding error, where UTF-8 does not encode the joined normalized sections;
-- or returns valid numbered chunks of at most `size` tokens: exact slices of the joined normalized
-- sections, which cover their visible characters. No section that is extracted is refused by the
-- domain model.
pub prepare_outcomes :
    {Source : Type 0} (strategy : ChunkingStrategy) (p : Platform)
    → PlatformLaws p
    → (c : Configuration) (parsers : Parsers Source) (max_pages : ℤ) (document : Document)
      (source : Source)
    → c.overlap < c.size
    → let prepared = prepare strategy p c parsers max_pages document source in
      let extracted = extract parsers max_pages document.media_type source in
      ((e : Error) × (extracted ≡ err e) × (prepared ≡ err e))
      ⊎ ((xs : List ExtractedSection) × (extracted ≡ ok xs)
          × (((normalize_from p 0 xs ≡ ok [])
                × (prepared ≡ err (ingestion_error no_extractable_text)))
              ⊎ ((sections : List NormalizedSection) × (normalize_sections p xs ≡ ok sections)
                  × (((encodable (joined sections) ≡ false) × (prepared ≡ err value_error))
                      ⊎ ((chunks : List Chunk) × (prepared ≡ ok chunks)
                          × AreExact p c.size document.id (joined sections) chunks)))))
unfolding prepare
prepare_outcomes strategy p laws c parsers max_pages document source small =
    elim (Result-cases (extract parsers max_pages document.media_type source)) [
      | inr (e, f) ↦ inl (e, f, ground arith)
      | inl (xs, f) ↦
          let run : (prepare strategy p c parsers max_pages document source)
              ≡ prepare_extracted strategy p c document.id xs =
            ground arith in
          inr (
            xs,
            f,
            elim (normalize_sections-cases p xs
                (extract-IsFit parsers max_pages document.media_type source xs f)) [
                  | inr (none_left, g) ↦
                      inl (none_left, run ∙ (unfold prepare_extracted in rw g refl))
                  | inl (sections, g) ↦ inr (
                    sections,
                    g,
                    elim (Bool-cases (encodable (joined sections))) [
                      | inl fine ↦
                          let (chunks, e, exact) =
                            prepare_total strategy p laws c document.id xs sections small g fine in
                          inr (chunks, run ∙ e, exact)
                      | inr bad ↦
                          elim (prepare_extracted-outcomes strategy p laws c document.id xs sections
                            small g) [
                              | inl raised ↦ inl (bad, run ∙ raised)
                              | inr (chunks, e, exact) ↦ inr (chunks, run ∙ e, exact)
                            ]
                    ],
                  )
                ],
          )
    ]
