-- ===== src/Ingestion/Pipeline/Prepared.antt =====
-- `SectionAwareChunker.chunk` over all sections, and `DocumentContentPreparer.prepare` with either
-- chunker.
use mathlib.Core.Path.{subst}
use enterprise_knowledge_sea.Common.{
  ℕ, suc, ◌+◌, ◌<◌, ◌≡◌, refl, ap, sym, ◌∙◌, ◌⊎◌, inl, inr, true, Text, List, [], ◌∷◌, ◌++◌, length,
  All, All-append, All-imp, arith,
}
use enterprise_knowledge_sea.Errors.{ok, err, value_error}
use enterprise_knowledge_sea.Platform.{Platform, PlatformLaws, encodable}
use enterprise_knowledge_sea.Domain.Chunk.{Chunk}
use enterprise_knowledge_sea.Ingestion.Models.{NormalizedSection, joined}
use enterprise_knowledge_sea.Ingestion.Windows.Coverage.{AreWindows, windows_total}
use enterprise_knowledge_sea.Ingestion.Windows.{TextWindow}
use enterprise_knowledge_sea.Ingestion.Tokens.Spans.{IsSolid}
use enterprise_knowledge_sea.Ingestion.Chunking.{
  Configuration, windows_or_raise, section_chunks, section_aware_from, section_aware_chunk,
}
use enterprise_knowledge_sea.Ingestion.Pipeline.Offsets.{
  BeginsAt, LaidOut, IsPlaced, LaidOut-IsPlaced,
}
use enterprise_knowledge_sea.Ingestion.Pipeline.Sources.{OneOf}
use enterprise_knowledge_sea.Ingestion.Pipeline.Exact.{AreChunksOf, InChunk, windows_or_raise-ok}
use enterprise_knowledge_sea.Ingestion.Pipeline.SectionAware.{
  IsWithin, Made, section_chunks-Made, section_chunks-outcomes,
}
use enterprise_knowledge_sea.Ingestion.Pipeline.SectionAware.Slices.{InSection, joined-InSection}

InChunk-left : (cs ds : List Chunk) (i : ℕ) → InChunk cs i → InChunk (cs ++ ds) i
InChunk-left [] ds i h = absurd h
InChunk-left (c ∷ cs) ds i (inl h) = inl h
InChunk-left (c ∷ cs) ds i (inr h) = inr (InChunk-left cs ds i h)

InChunk-right : (cs ds : List Chunk) (i : ℕ) → InChunk ds i → InChunk (cs ++ ds) i
InChunk-right [] ds i h = h
InChunk-right (c ∷ cs) ds i h = inr (InChunk-right cs ds i h)

IsWithin-more :
    (sections sections' : List NormalizedSection)
    → ((s : NormalizedSection) → OneOf sections s → OneOf sections' s)
    → (c : Chunk) → IsWithin sections c
    → IsWithin sections' c
IsWithin-more sections sections' more c w = record {
  section = w.section;
  member = more w.section w.member;
  path = w.path;
  page = w.page;
  low = w.low;
  high = w.high;
}

module _ (p : Platform) (laws : PlatformLaws p) (c : Configuration) (small : c.overlap < c.size)
    (document_id : ℕ) (full : Text) where
  AreChunksOf-append :
      (n : ℕ) (cs ds : List Chunk)
      → AreChunksOf p c.size full document_id n cs
      → AreChunksOf p c.size full document_id (n + length cs) ds
      → AreChunksOf p c.size full document_id n (cs ++ ds)
  AreChunksOf-append n [] ds h k = let e : n + 0 ≡ n = omega arith in rw e at k
  AreChunksOf-append n (x ∷ cs) ds (h, hs) k =
      let e : n + suc (length cs) ≡ suc n + length cs = omega arith in
      (h, AreChunksOf-append (suc n) cs ds hs (rw e at k))

  -- What the outer loop returns from a number of chunks on.
  record MadeAll (n at : ℕ) (sections : List NormalizedSection) : Type 0 where
    chunks : List Chunk
    returned : section_aware_from p c document_id n sections ≡ ok chunks
    exact : AreChunksOf p c.size full document_id n chunks
    within : All (IsWithin sections) chunks
    covered : (j : ℕ) → InSection at sections j → InChunk chunks j

  same_place :
      (at : ℕ) (s : NormalizedSection) (placed : IsPlaced full s) → BeginsAt at s → placed.at ≡ at
  same_place at s placed here = ground (arith, placed.begins.start, here.start)

  one_more :
      (n at : ℕ) (s : NormalizedSection) (rest : List NormalizedSection)
      → BeginsAt at s
      → (placed : IsPlaced full s) (ws : List TextWindow) → windows_or_raise p c s.text ≡ ok ws
      → AreWindows c.size s.text ws
      → (first : Made p laws c.size document_id full s placed n ws)
      → MadeAll (n + length first.chunks) (at + (length s.text + 2)) rest
      → MadeAll n at (s ∷ rest)
  unfolding section_aware_from
  one_more n at s rest here placed ws windowed are first more = record {
    chunks = first.chunks ++ more.chunks;
    returned = rw windowed (rw first.returned (rw more.returned));
    exact = AreChunksOf-append n first.chunks more.chunks first.exact more.exact;
    within =
        All-append (IsWithin (s ∷ rest)) first.chunks more.chunks
          (All-imp
            (IsWithin-more (s ∷ []) (s ∷ rest)
              (λ t. elim [ inl e ↦ inl e | inr no_more ↦ absurd no_more ]))
            first.chunks first.within)
          (All-imp (IsWithin-more rest (s ∷ rest) (λ t m. inr m)) more.chunks more.within);
    covered = λ j. elim [
      | inl (i, e, solid) ↦ InChunk-left first.chunks more.chunks j (
          subst (InChunk first.chunks) (ap (λ k. k + i) (same_place at s placed here) ∙ sym e)
            (first.covered i (are.every i solid)))
      | inr later ↦ InChunk-right first.chunks more.chunks j (more.covered j later)
    ];
  }

  no_more : (n at : ℕ) → MadeAll n at []
  no_more n at = record {
    chunks = [];
    returned = unfold section_aware_from in refl;
    exact = tt;
    within = tt;
    covered = λ j k. k;
  }

  section_aware_from-MadeAll :
      (n at : ℕ) (sections : List NormalizedSection)
      → encodable full ≡ true
      → LaidOut at sections
      → All (IsPlaced full) sections
      → MadeAll n at sections
  section_aware_from-MadeAll n at [] fine laid placed = no_more n at
  section_aware_from-MadeAll n at (s ∷ rest) fine (here, later) (placed, others) =
      let (ws, found, are) = windows_total p laws c.size c.overlap s.text small in
      let first = section_chunks-Made p laws c.size document_id full s placed n ws fine are.each in
      one_more n at s rest here placed ws (windows_or_raise-ok p c s.text ws found) are first (
        section_aware_from-MadeAll (n + length first.chunks) (at + (length s.text + 2)) rest fine
          later others)

  -- The outer loop stops at the first section whose chunks raise, here or later.
  stopped :
      (n : ℕ) (s : NormalizedSection) (rest : List NormalizedSection) (ws : List TextWindow)
      → windows_or_raise p c s.text ≡ ok ws
      → (section_chunks p document_id s n ws ≡ err value_error)
        ⊎ ((chunks : List Chunk) × (section_chunks p document_id s n ws ≡ ok chunks)
            × (section_aware_from p c document_id (n + length chunks) rest ≡ err value_error))
      → section_aware_from p c document_id n (s ∷ rest) ≡ err value_error
  unfolding section_aware_from
  stopped n s rest ws windowed (inl raised) = rw windowed (rw raised refl)
  stopped n s rest ws windowed (inr (chunks, returned, later)) =
      rw windowed (rw returned (rw later refl))

  section_aware_from-outcomes :
      (n at : ℕ) (sections : List NormalizedSection)
      → LaidOut at sections
      → All (IsPlaced full) sections
      → (section_aware_from p c document_id n sections ≡ err value_error) ⊎ MadeAll n at sections
  section_aware_from-outcomes n at [] laid placed = inr (no_more n at)
  section_aware_from-outcomes n at (s ∷ rest) (here, later) (placed, others) =
      let (ws, found, are) = windows_total p laws c.size c.overlap s.text small in
      let windowed = windows_or_raise-ok p c s.text ws found in
      elim (section_chunks-outcomes p laws c.size document_id full s placed n ws are.each) [
        | inl raised ↦ inl (stopped n s rest ws windowed (inl raised))
        | inr first ↦
            elim (section_aware_from-outcomes (n + length first.chunks) (at + (length s.text + 2))
              rest later others) [
                | inl raised ↦
                    inl (stopped n s rest ws windowed (inr (first.chunks, first.returned, raised)))
                | inr more ↦ inr (one_more n at s rest here placed ws windowed are first more)
              ]
      ]

-- With a smaller overlap, on sections that are laid out from the first character on and whose
-- joined text UTF-8 encodes, `SectionAwareChunker.chunk` returns.
-- Its chunks are numbered from 0 in order across the sections, belong to the document, have at
-- most `size` tokens and are valid; the text of each is the slice of the joined text between the
-- offsets of its locator; each lies inside one section, whose path and page it carries; and every
-- character of the joined text that is no white space is in some chunk.
pub section_aware_chunk_total :
    (p : Platform)
    → PlatformLaws p
    → (c : Configuration) (document_id : ℕ) (sections : List NormalizedSection) → c.overlap < c.size
    → LaidOut 0 sections
    → encodable (joined sections) ≡ true
    → (chunks : List Chunk) × (section_aware_chunk p c document_id sections ≡ ok chunks)
      × AreChunksOf p c.size (joined sections) document_id 0 chunks
      × All (IsWithin sections) chunks
      × ((i : ℕ) → IsSolid (joined sections) i → InChunk chunks i)
unfolding section_aware_chunk
section_aware_chunk_total p laws c document_id sections small laid fine =
    let m =
      section_aware_from-MadeAll p laws c small document_id (joined sections) 0 0 sections fine laid
        (LaidOut-IsPlaced sections laid) in
    (
      m.chunks,
      m.returned,
      m.exact,
      m.within,
      λ i solid.
          let e : 0 + i ≡ i = omega arith in
          m.covered i (rw e at (joined-InSection 0 sections i solid)),
    )

-- Without the condition on the text, the chunker raises the encoding error or returns chunks that
-- are exact and hold every visible character.
pub section_aware_chunk-outcomes :
    (p : Platform)
    → PlatformLaws p
    → (c : Configuration) (document_id : ℕ) (sections : List NormalizedSection) → c.overlap < c.size
    → LaidOut 0 sections
    → (section_aware_chunk p c document_id sections ≡ err value_error)
      ⊎ ((chunks : List Chunk) × (section_aware_chunk p c document_id sections ≡ ok chunks)
          × AreChunksOf p c.size (joined sections) document_id 0 chunks
          × ((i : ℕ) → IsSolid (joined sections) i → InChunk chunks i))
unfolding section_aware_chunk
section_aware_chunk-outcomes p laws c document_id sections small laid =
    elim (section_aware_from-outcomes p laws c small document_id (joined sections) 0 0 sections laid
      (LaidOut-IsPlaced sections laid)) [
        | inl raised ↦ inl raised
        | inr m ↦ inr (
          m.chunks,
          m.returned,
          m.exact,
          λ i solid.
              let e : 0 + i ≡ i = omega arith in
              m.covered i (rw e at (joined-InSection 0 sections i solid)),
        )
      ]
