-- ===== src/Tests/Pipeline.antt =====
-- The ingestion pipeline on a document of two sections.
use enterprise_knowledge_sea.Common.{
  ◌≡◌, refl, none, some, codes, List, [], ◌∷◌, pos, ◌<◌, arith, All, ℕ, strip, is_space, blank,
}
use enterprise_knowledge_sea.Errors.{ok}
use enterprise_knowledge_sea.Domain.Locator
use enterprise_knowledge_sea.Domain.Locator.{SourceLocator}
use enterprise_knowledge_sea.Domain.Chunk.{Chunk}
use enterprise_knowledge_sea.Ingestion.Models.{ExtractedSection, NormalizedSection, joined}
use enterprise_knowledge_sea.Ingestion.Windows.{TextWindow, windows}
use enterprise_knowledge_sea.Ingestion.Windows.Coverage.{AreWindows, windows_total}
use enterprise_knowledge_sea.Ingestion.Chunking.{
  Configuration, configure, fixed_window_chunk, section_aware_chunk,
}
use enterprise_knowledge_sea.Ingestion.Normalize.{
  normalize_document_text, collapse_lines, drop_trailing, replace_char, replace_crlf,
}
use enterprise_knowledge_sea.Ingestion.Pipeline.{
  normalize_sections, normalize_from, prepare_extracted, section_aware,
}
use enterprise_knowledge_sea.Ingestion.Pipeline.Offsets.{LaidOut, normalize_sections-LaidOut}
use enterprise_knowledge_sea.Ingestion.Pipeline.Exact.{AreChunksOf, InChunk}
use enterprise_knowledge_sea.Ingestion.Pipeline.FixedWindow.{AreChunks, fixed_window_chunk_total}
use enterprise_knowledge_sea.Ingestion.Pipeline.SectionAware.{IsWithin}
use enterprise_knowledge_sea.Ingestion.Pipeline.Prepared.{section_aware_chunk_total}
use enterprise_knowledge_sea.Ingestion.Pipeline.Whole.{AreExact, prepare_total}
use enterprise_knowledge_sea.Ingestion.Tokens.Spans.{IsSolid}
use enterprise_knowledge_sea.Platform.{encodable, surrogate}
use enterprise_knowledge_sea.Tests.{platform, platform_laws}

abbrev pub two_tokens : Configuration
two_tokens = record { size = 2; overlap = 1 }

abbrev extracted : List ExtractedSection
extracted =
    record { text = codes "  one two  \r\n"; section_path = codes "A" ∷ []; page_number = none }
    ∷ record { text = codes " \n "; section_path = []; page_number = none }
    ∷ record { text = codes "it's three"; section_path = []; page_number = some (pos 2) }
    ∷ []

abbrev first : NormalizedSection
first = record {
  text = codes "one two";
  locator = record {
    section_path = codes "A" ∷ [];
    page_number = none;
    char_start = pos 0;
    char_end = pos 7;
  };
}

abbrev second : NormalizedSection
second = record {
  text = codes "it's three";
  locator = record {
    section_path = [];
    page_number = some (pos 2);
    char_start = pos 9;
    char_end = pos 19;
  };
}

abbrev normalized : List NormalizedSection
normalized = first ∷ second ∷ []

normalized_test : normalize_sections platform extracted ≡ ok normalized
unfolding normalize_sections normalize_from normalize_document_text strip collapse_lines
    drop_trailing replace_char replace_crlf is_space Locator.post_init blank
normalized_test = refl

laid : LaidOut 0 normalized
laid = (normalize_sections-LaidOut platform extracted normalized normalized_test).0

pub smaller : 1 < 2
smaller = omega arith

configure_test : configure (pos 2) (pos 1) ≡ ok two_tokens
unfolding configure
configure_test = refl

prepare_total_example :
    (chunks : List Chunk) × (prepare_extracted section_aware platform two_tokens 5 extracted
      ≡ ok chunks)
    × AreExact platform 2 5 (joined normalized) chunks
prepare_total_example =
    prepare_total section_aware platform platform_laws two_tokens 5 extracted normalized smaller
      normalized_test (unfold encodable surrogate joined in refl)

fixed_window_chunk_total_example :
    (chunks : List Chunk) × (fixed_window_chunk platform two_tokens 5 normalized ≡ ok chunks)
    × AreChunks platform 2 5 normalized chunks
fixed_window_chunk_total_example =
    fixed_window_chunk_total platform platform_laws two_tokens 5 first (second ∷ []) smaller laid
      (unfold encodable surrogate joined in refl)

section_aware_chunk_total_example :
    (chunks : List Chunk) × (section_aware_chunk platform two_tokens 5 normalized ≡ ok chunks)
    × AreChunksOf platform 2 (joined normalized) 5 0 chunks
    × All (IsWithin normalized) chunks
    × ((i : ℕ) → IsSolid (joined normalized) i → InChunk chunks i)
section_aware_chunk_total_example =
    section_aware_chunk_total platform platform_laws two_tokens 5 normalized smaller laid
      (unfold encodable surrogate joined in refl)

windows_total_example :
    (ws : List TextWindow) × (windows platform 2 1 (codes "one two three") ≡ some ws)
    × AreWindows 2 (codes "one two three") ws
windows_total_example = windows_total platform platform_laws 2 1 (codes "one two three") smaller
