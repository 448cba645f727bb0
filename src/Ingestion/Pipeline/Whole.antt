-- ===== src/Ingestion/Pipeline/Whole.antt =====
-- `DocumentContentPreparer.prepare` from the extracted sections on, with either chunker.
use enterprise_knowledge_sea.Common.{
  ℕ, ◌<◌, ◌≡◌, refl, ◌⊎◌, inl, inr, Text, List, [], ◌∷◌, ◌++◌, is_empty, true, false,
}
use enterprise_knowledge_sea.Errors.{ok, err, value_error}
use enterprise_knowledge_sea.Platform.{Platform, PlatformLaws, encodable}
use enterprise_knowledge_sea.Domain.Chunk.{Chunk}
use enterprise_knowledge_sea.Ingestion.Models.{ExtractedSection, NormalizedSection, joined}
use enterprise_knowledge_sea.Ingestion.Tokens.Spans.{IsSolid}
use enterprise_knowledge_sea.Ingestion.Chunking.{Configuration}
use enterprise_knowledge_sea.Ingestion.Pipeline.{
  ChunkingStrategy, fixed_window, section_aware, chunk_sections, normalize_sections,
  prepare_extracted,
}
use enterprise_knowledge_sea.Ingestion.Pipeline.Offsets.{LaidOut, normalize_sections-LaidOut}
use enterprise_knowledge_sea.Ingestion.Pipeline.Exact.{AreChunksOf, InChunk}
use enterprise_knowledge_sea.Ingestion.Pipeline.FixedWindow.{
  fixed_window_chunk_total, fixed_window_chunk-outcomes,
}
use enterprise_knowledge_sea.Ingestion.Pipeline.Prepared.{
  section_aware_chunk_total, section_aware_chunk-outcomes,
}

-- Chunks that hold all of a text, each in its place.
pub record AreExact (p : Platform) (size document_id : ℕ) (text : Text) (chunks : List Chunk)
    : Type 0 where
  pub exact : AreChunksOf p size text document_id 0 chunks
  pub covered : (i : ℕ) → IsSolid text i → InChunk chunks i

chunk_sections-AreExact :
    (strategy : ChunkingStrategy) (p : Platform)
    → PlatformLaws p
    → (c : Configuration) (document_id : ℕ) (s : NormalizedSection) (rest : List NormalizedSection)
    → c.overlap < c.size
    → LaidOut 0 (s ∷ rest)
    → encodable (joined (s ∷ rest)) ≡ true
    → (chunks : List Chunk) × (chunk_sections strategy p c document_id (s ∷ rest) ≡ ok chunks)
      × AreExact p c.size document_id (joined (s ∷ rest)) chunks
unfolding chunk_sections
chunk_sections-AreExact fixed_window p laws c document_id s rest small laid fine =
    let (chunks, e, are) = fixed_window_chunk_total p laws c document_id s rest small laid fine in
    (chunks, e, record { exact = are.exact; covered = are.covered })
chunk_sections-AreExact section_aware p laws c document_id s rest small laid fine =
    let (chunks, e, exact, _, covered) =
      section_aware_chunk_total p laws c document_id (s ∷ rest) small laid fine in
    (chunks, e, record { exact = exact; covered = covered })

IsSolid-left : (s t : Text) → IsSolid s 0 → IsSolid (s ++ t) 0
IsSolid-left [] t (c, e, v) = cc
IsSolid-left (d ∷ s) t h = h

joined-IsSolid :
    (s : NormalizedSection) (rest : List NormalizedSection)
    → IsSolid s.text 0
    → IsSolid (joined (s ∷ rest)) 0
unfolding joined
joined-IsSolid s [] h = h
joined-IsSolid s (t ∷ rest) h = IsSolid-left s.text (10 ∷ 10 ∷ joined (t ∷ rest)) h

some_chunk : (chunks : List Chunk) (i : ℕ) → InChunk chunks i → is_empty chunks ≡ false
some_chunk [] i h = absurd h
some_chunk (c ∷ chunks) i h = refl

-- Where `_normalize_sections` returns for the extracted sections (it raises where all are blank)
-- and UTF-8 encodes their joined text, the rest of `prepare` returns with either chunker, whatever
-- the size and the smaller overlap: it raises no `no_extractable_text` after that. The chunks are
-- valid, numbered from 0, have at most `size` tokens; the text of each is the slice of the joined
-- section texts between its offsets; and every visible character of the joined text is in one.
pub prepare_total :
    (strategy : ChunkingStrategy) (p : Platform)
    → PlatformLaws p
    → (c : Configuration) (document_id : ℕ) (xs : List ExtractedSection)
      (sections : List NormalizedSection)
    → c.overlap < c.size
    → normalize_sections p xs ≡ ok sections
    → encodable (joined sections) ≡ true
    → (chunks : List Chunk) × (prepare_extracted strategy p c document_id xs ≡ ok chunks)
      × AreExact p c.size document_id (joined sections) chunks
prepare_total strategy p laws c document_id xs [] small h fine =
    let (_, filled) = normalize_sections-LaidOut p xs [] h in cc
prepare_total strategy p laws c document_id xs (s ∷ rest) small h fine =
    let (laid, _) = normalize_sections-LaidOut p xs (s ∷ rest) h in
    let (chunks, e, are) =
      chunk_sections-AreExact strategy p laws c document_id s rest small laid fine in
    let full = some_chunk chunks 0 (are.covered 0 (joined-IsSolid s rest laid.0.visible)) in
    (chunks, unfold prepare_extracted in rw h (rw e (rw full)), are)

chunk_sections-outcomes :
    (strategy : ChunkingStrategy) (p : Platform)
    → PlatformLaws p
    → (c : Configuration) (document_id : ℕ) (s : NormalizedSection) (rest : List NormalizedSection)
    → c.overlap < c.size
    → LaidOut 0 (s ∷ rest)
    → (chunk_sections strategy p c document_id (s ∷ rest) ≡ err value_error)
      ⊎ ((chunks : List Chunk) × (chunk_sections strategy p c document_id (s ∷ rest) ≡ ok chunks)
          × AreExact p c.size document_id (joined (s ∷ rest)) chunks)
unfolding chunk_sections
chunk_sections-outcomes fixed_window p laws c document_id s rest small laid =
    elim (fixed_window_chunk-outcomes p laws c document_id s rest small laid) [
      | inl raised ↦ inl raised
      | inr (chunks, e, are) ↦ inr (chunks, e, record { exact = are.exact; covered = are.covered })
    ]
chunk_sections-outcomes section_aware p laws c document_id s rest small laid =
    elim (section_aware_chunk-outcomes p laws c document_id (s ∷ rest) small laid) [
      | inl raised ↦ inl raised
      | inr (chunks, e, exact, covered) ↦
          inr (chunks, e, record { exact = exact; covered = covered })
    ]

-- Sections that normalize raise the encoding error, or make exact chunks.
pub prepare_extracted-outcomes :
    (strategy : ChunkingStrategy) (p : Platform)
    → PlatformLaws p
    → (c : Configuration) (document_id : ℕ) (xs : List ExtractedSection)
      (sections : List NormalizedSection)
    → c.overlap < c.size
    → normalize_sections p xs ≡ ok sections
    → (prepare_extracted strategy p c document_id xs ≡ err value_error)
      ⊎ ((chunks : List Chunk) × (prepare_extracted strategy p c document_id xs ≡ ok chunks)
          × AreExact p c.size document_id (joined sections) chunks)
prepare_extracted-outcomes strategy p laws c document_id xs [] small h =
    let (_, filled) = normalize_sections-LaidOut p xs [] h in cc
prepare_extracted-outcomes strategy p laws c document_id xs (s ∷ rest) small h =
    let (laid, _) = normalize_sections-LaidOut p xs (s ∷ rest) h in
    elim (chunk_sections-outcomes strategy p laws c document_id s rest small laid) [
      | inl raised ↦ inl (unfold prepare_extracted in rw h (rw raised refl))
      | inr (chunks, e, are) ↦
          let full = some_chunk chunks 0 (are.covered 0 (joined-IsSolid s rest laid.0.visible)) in
          inr (chunks, unfold prepare_extracted in rw h (rw e (rw full)), are)
    ]
