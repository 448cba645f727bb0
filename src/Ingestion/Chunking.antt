-- ===== src/Ingestion/Chunking.antt =====
-- knowledge_search/ingestion/chunking.py: the two chunkers. A chunker is made by its checked
-- constructor, so its size and overlap are natural numbers with `overlap < size`.

use enterprise_knowledge_sea.Common.{
  ℕ, suc, ◌+◌, Text, List, [], ◌∷◌, ◌++◌, none, some, ℤ, pos, pos_part, ltb_ℤ, ◌+ℤ◌, not, length,
  if◌then◌else◌,
}
use enterprise_knowledge_sea.Errors.{
  Result, ok, err, ◌>>=◌, ◌>>◌, raise_if, value_error, other_error,
}
use enterprise_knowledge_sea.Platform.{Platform, encodable}
use enterprise_knowledge_sea.Domain.Locator
use enterprise_knowledge_sea.Domain.Locator.{SourceLocator}
use enterprise_knowledge_sea.Domain.Chunk
use enterprise_knowledge_sea.Domain.Chunk.{Chunk}
use enterprise_knowledge_sea.Ingestion.Models.{NormalizedSection, joined}
use enterprise_knowledge_sea.Ingestion.Windows.{TextWindow, windows}

pub record Configuration : Type 0 where
  pub size : ℕ
  pub overlap : ℕ

-- `_validate_window_configuration`, and the chunkers' `__init__`
unfoldable pub configure : ℤ → ℤ → Result Configuration
configure size overlap = do
  raise_if (ltb_ℤ size (pos 1)) value_error
  raise_if (ltb_ℤ overlap (pos 0)) value_error
  raise_if (not (ltb_ℤ overlap size)) value_error
  ok (record { size = pos_part size; overlap = pos_part overlap })

-- `_windows`, with an IndexError as an exception
unfoldable pub windows_or_raise : Platform → Configuration → Text → Result (List TextWindow)
windows_or_raise p c text = elim (windows p c.size c.overlap text) [
  | none ↦ err other_error
  | some ws ↦ ok ws
]

-- `_create_chunk`. A `UnicodeEncodeError` is a `ValueError`.
unfoldable pub create_chunk : Platform → ℕ → ℕ → TextWindow → SourceLocator → Result Chunk
create_chunk p document_id ordinal window locator = do
  raise_if (not (encodable window.text)) value_error
  Chunk.create p document_id (pos ordinal) window.text (pos window.token_count)
      (p.sha256_hex window.text) locator

-- `_section_at_offset`: the last section that begins at or before the offset.
unfoldable pub section_at_offset : List NormalizedSection → ℕ → Result NormalizedSection
section_at_offset [] offset = err value_error
section_at_offset (s ∷ rest) offset = elim (section_at_offset rest offset) [
  | ok found ↦ ok found
  | err e ↦ if ltb_ℤ (pos offset) s.locator.char_start then err value_error else ok s
]

-- The loop of `FixedWindowChunker.chunk` over the enumerated windows.
unfoldable pub fixed_chunks :
    Platform → ℕ → List NormalizedSection → ℕ → List TextWindow → Result (List Chunk)
fixed_chunks p document_id sections ordinal [] = ok []
fixed_chunks p document_id sections ordinal (w ∷ ws) = do
  source ← section_at_offset sections w.char_start
  locator ← Locator.post_init (record {
    section_path = source.locator.section_path;
    page_number = source.locator.page_number;
    char_start = pos w.char_start;
    char_end = pos w.char_end;
  })
  chunk ← create_chunk p document_id ordinal w locator
  rest ← fixed_chunks p document_id sections (suc ordinal) ws
  ok (chunk ∷ rest)

-- `FixedWindowChunker.chunk`
unfoldable pub fixed_window_chunk :
    Platform → Configuration → ℕ → List NormalizedSection → Result (List Chunk)
fixed_window_chunk p c document_id sections = do
  ws ← windows_or_raise p c (joined sections)
  fixed_chunks p document_id sections 0 ws

-- The inner loop of `SectionAwareChunker.chunk`, over the windows of one section.
unfoldable pub section_chunks :
    Platform → ℕ → NormalizedSection → ℕ → List TextWindow → Result (List Chunk)
section_chunks p document_id section ordinal [] = ok []
section_chunks p document_id section ordinal (w ∷ ws) = do
  locator ← Locator.post_init (record {
    section_path = section.locator.section_path;
    page_number = section.locator.page_number;
    char_start = section.locator.char_start +ℤ pos w.char_start;
    char_end = section.locator.char_start +ℤ pos w.char_end;
  })
  chunk ← create_chunk p document_id ordinal w locator
  rest ← section_chunks p document_id section (suc ordinal) ws
  ok (chunk ∷ rest)

-- `SectionAwareChunker.chunk`, with `ordinal` chunks made already
unfoldable pub section_aware_from :
    Platform → Configuration → ℕ → ℕ → List NormalizedSection → Result (List Chunk)
section_aware_from p c document_id ordinal [] = ok []
section_aware_from p c document_id ordinal (s ∷ rest) = do
  ws ← windows_or_raise p c s.text
  chunks ← section_chunks p document_id s ordinal ws
  more ← section_aware_from p c document_id (ordinal + length chunks) rest
  ok (chunks ++ more)

unfoldable pub section_aware_chunk :
    Platform → Configuration → ℕ → List NormalizedSection → Result (List Chunk)
section_aware_chunk p c document_id = section_aware_from p c document_id 0
