-- ===== src/Ingestion/Pipeline.antt =====
-- knowledge_search/ingestion/pipeline.py: extraction, normalization and chunking of a document.
pub mod Offsets
pub mod Exact
pub mod Sources
pub mod FixedWindow
pub mod SectionAware
pub mod Prepared
pub mod Whole
use enterprise_knowledge_sea.Common.{
  ℕ, ◌+◌, Bool, true, false, Text, List, [], ◌∷◌, pos, is_empty, length, if◌then◌else◌,
}
use enterprise_knowledge_sea.Errors.{
  Result, ok, err, ◌>>=◌, ◌>>◌, raise_if, ingestion_error, no_extractable_text,
}
use enterprise_knowledge_sea.Platform.{Platform}
use enterprise_knowledge_sea.Domain.Locator
use enterprise_knowledge_sea.Domain.Chunk.{Chunk}
use enterprise_knowledge_sea.Ingestion.Models.{ExtractedSection, NormalizedSection}
use enterprise_knowledge_sea.Ingestion.Normalize.{normalize_document_text}
use enterprise_knowledge_sea.Ingestion.Chunking.{
  Configuration, fixed_window_chunk, section_aware_chunk,
}

-- The loop of `_normalize_sections`, with the cursor that it has reached.
unfoldable pub normalize_from :
    Platform → ℕ → List ExtractedSection → Result (List NormalizedSection)
normalize_from p cursor [] = ok []
normalize_from p cursor (x ∷ xs) =
    let text = normalize_document_text p x.text in
    let rest = normalize_from p (if is_empty text then cursor else cursor + (length text + 2)) xs in
    if is_empty text then rest else do
      locator ← Locator.post_init (record {
        section_path = x.section_path;
        page_number = x.page_number;
        char_start = pos cursor;
        char_end = pos (cursor + length text);
      })
      sections ← rest
      ok (record { text = text; locator = locator } ∷ sections)

-- `_normalize_sections`
unfoldable pub normalize_sections :
    Platform → List ExtractedSection → Result (List NormalizedSection)
normalize_sections p xs = do
  sections ← normalize_from p 0 xs
  raise_if (is_empty sections) (ingestion_error no_extractable_text)
  ok sections

-- `settings.chunking_strategy`
pub data ChunkingStrategy : Type 0 where
  fixed_window section_aware : ChunkingStrategy

-- the chunker that `create_content_preparer` chooses
unfoldable pub chunk_sections :
    ChunkingStrategy → Platform → Configuration → ℕ → List NormalizedSection → Result (List Chunk)
chunk_sections fixed_window = fixed_window_chunk
chunk_sections section_aware = section_aware_chunk

-- `DocumentContentPreparer.prepare`, from what the extractor returned on
unfoldable pub prepare_extracted :
    ChunkingStrategy → Platform → Configuration → ℕ → List ExtractedSection → Result (List Chunk)
prepare_extracted strategy p c document_id extracted = do
  sections ← normalize_sections p extracted
  chunks ← chunk_sections strategy p c document_id sections
  raise_if (is_empty chunks) (ingestion_error no_extractable_text)
  ok chunks
