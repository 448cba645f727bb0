-- ===== src/Ingestion/Pipeline/FixedWindow.antt =====
-- `FixedWindowChunker.chunk` on sections that are laid out.
use enterprise_knowledge_sea.Common.{
  ℕ, suc, ◌<◌, ◌≡◌, refl, ◌⊎◌, inl, inr, true, false, Bool-cases, Text, List, [], ◌∷◌, pos, All,
  arith,
}
use enterprise_knowledge_sea.Errors.{ok, err, value_error}
use enterprise_knowledge_sea.Platform.{Platform, PlatformLaws, encodable}
use enterprise_knowledge_sea.Domain.Locator
use enterprise_knowledge_sea.Domain.Locator.{SourceLocator}
use enterprise_knowledge_sea.Domain.Chunk.{Chunk}
use enterprise_knowledge_sea.Ingestion.Models.{NormalizedSection, joined}
use enterprise_knowledge_sea.Ingestion.Windows.{TextWindow}
use enterprise_knowledge_sea.Ingestion.Windows.Coverage.{IsWindow, InChars, windows_total}
use enterprise_knowledge_sea.Ingestion.Tokens.Spans.{IsSolid}
use enterprise_knowledge_sea.Ingestion.Chunking.{Configuration, fixed_chunks, fixed_window_chunk}
use enterprise_knowledge_sea.Ingestion.Pipeline.Offsets.{LaidOut}
use enterprise_knowledge_sea.Ingestion.Pipeline.Sources.{IsSource, section_at_offset-IsSource}
use enterprise_knowledge_sea.Ingestion.Pipeline.Exact.{
  AreChunksOf, InChunk, made, made-IsValid, create_chunk_fits, create_chunk_raised,
  encodable-window, windows_or_raise-ok,
}

-- A chunk carries the section path and the page of the section that its first character is in.
pub record IsCited (sections : List NormalizedSection) (c : Chunk) : Type 0 where
  pub first : ℕ
  pub starts : c.locator.char_start ≡ pos first
  pub source : NormalizedSection
  pub from : IsSource sections first source
  pub path : c.locator.section_path ≡ source.locator.section_path
  pub page : c.locator.page_number ≡ source.locator.page_number

-- the locator that the loop gives to the chunk of a window
abbrev located : NormalizedSection → TextWindow → SourceLocator
located s w = record {
  section_path = s.locator.section_path;
  page_number = s.locator.page_number;
  char_start = pos w.char_start;
  char_end = pos w.char_end;
}

located-IsValid :
    (size : ℕ) (text : Text) (s : NormalizedSection) (w : TextWindow)
    → Locator.IsValid s.locator
    → IsWindow size text w
    → Locator.IsValid (located s w)
located-IsValid size text s w v is = record {
  path = v.path;
  page = v.page;
  start = omega arith;
  range = omega (arith, is.range);
}

module _ (p : Platform) (laws : PlatformLaws p) (size document_id : ℕ) (s : NormalizedSection)
    (rest : List NormalizedSection) (laid : LaidOut 0 (s ∷ rest)) where
  abbrev full : Text
  full = joined (s ∷ rest)

  -- What the loop returns: a chunk for each window.
  record Made (number : ℕ) (ws : List TextWindow) : Type 0 where
    chunks : List Chunk
    returned : fixed_chunks p document_id (s ∷ rest) number ws ≡ ok chunks
    exact : AreChunksOf p size full document_id number chunks
    cited : All (IsCited (s ∷ rest)) chunks
    covered : (i : ℕ) → InChars ws i → InChunk chunks i

  step :
      (number : ℕ) (w : TextWindow) (ws : List TextWindow)
      → encodable w.text ≡ true
      → IsWindow size full w
      → Made (suc number) ws
      → Made number (w ∷ ws)
  unfolding fixed_chunks
  step number w ws fine is more =
      let (t, found, source) = section_at_offset-IsSource s rest w.char_start laid in
      let place = located-IsValid size full t w source.valid is in
      record {
        chunks = made p document_id number w (located t w) ∷ more.chunks;
        returned =
            rw (found, Locator.post_init_of_IsValid (located t w) place)
              (rw (create_chunk_fits p laws size full w is document_id number (located t w) fine)
                (rw more.returned));
        exact = (
          record {
            document = refl;
            ordinal = refl;
            id = refl;
            tokens = omega (arith, is.few_tokens);
            start = w.char_start;
            stop = w.char_end;
            starts = refl;
            stops = refl;
            range = is.range;
            inside = is.inside;
            exact = is.exact;
            valid = made-IsValid p laws size full w is document_id number (located t w);
            placed = place;
          },
          more.exact,
        );
        cited = (
          record {
            first = w.char_start;
            starts = refl;
            source = t;
            from = source;
            path = refl;
            page = refl;
          },
          more.cited,
        );
        covered =
            λ i seen. elim seen [ inl here ↦ inl here | inr later ↦ inr (more.covered i later) ];
      }

  fixed_chunks-Made :
      (number : ℕ) (ws : List TextWindow)
      → encodable full ≡ true
      → All (IsWindow size full) ws
      → Made number ws
  fixed_chunks-Made number [] fine h = record {
    chunks = [];
    returned = unfold fixed_chunks in refl;
    exact = tt;
    cited = tt;
    covered = λ i k. k;
  }
  fixed_chunks-Made number (w ∷ ws) fine (is, h) =
      step number w ws (encodable-window p laws size full w is fine) is
        (fixed_chunks-Made (suc number) ws fine h)

  -- The loop stops at the first window whose text UTF-8 does not encode, here or later.
  stopped :
      (number : ℕ) (w : TextWindow) (ws : List TextWindow)
      → IsWindow size full w
      → (encodable w.text ≡ false)
        ⊎ ((encodable w.text ≡ true)
            × (fixed_chunks p document_id (s ∷ rest) (suc number) ws ≡ err value_error))
      → fixed_chunks p document_id (s ∷ rest) number (w ∷ ws) ≡ err value_error
  unfolding fixed_chunks
  stopped number w ws is why =
      let (t, found, source) = section_at_offset-IsSource s rest w.char_start laid in
      let place = located-IsValid size full t w source.valid is in
      rw (found, Locator.post_init_of_IsValid (located t w) place)
        (elim why [
          | inl bad ↦
              rw (create_chunk_raised p laws size full w is document_id number (located t w) bad)
                refl
          | inr (fine, later) ↦
              rw (create_chunk_fits p laws size full w is document_id number (located t w) fine)
                (rw later refl)
        ])

  fixed_chunks-outcomes :
      (number : ℕ) (ws : List TextWindow)
      → All (IsWindow size full) ws
      → (fixed_chunks p document_id (s ∷ rest) number ws ≡ err value_error) ⊎ Made number ws
  fixed_chunks-outcomes number [] h = inr (record {
    chunks = [];
    returned = unfold fixed_chunks in refl;
    exact = tt;
    cited = tt;
    covered = λ i k. k;
  })
  fixed_chunks-outcomes number (w ∷ ws) (is, h) = elim (Bool-cases (encodable w.text)) [
    | inr bad ↦ inl (stopped number w ws is (inl bad))
    | inl fine ↦ elim (fixed_chunks-outcomes (suc number) ws h) [
      | inl later ↦ inl (stopped number w ws is (inr (fine, later)))
      | inr more ↦ inr (step number w ws fine is more)
    ]
  ]

-- The chunks of a document: exact, numbered from 0, and holding every visible character.
pub record AreChunks (p : Platform) (size document_id : ℕ) (sections : List NormalizedSection)
    (chunks : List Chunk) : Type 0 where
  pub exact : AreChunksOf p size (joined sections) document_id 0 chunks
  pub cited : All (IsCited sections) chunks
  pub covered : (i : ℕ) → IsSolid (joined sections) i → InChunk chunks i

-- With a smaller overlap, on sections that are laid out from the first character on and whose
-- joined text UTF-8 encodes, `FixedWindowChunker.chunk` returns.
-- Its chunks are numbered from 0 in order, belong to the document, have at most `size` tokens and
-- are valid; the text of each is the slice of the joined text between the offsets of its locator;
-- each carries the section path and page of the last section that begins at or before its first
-- character; and every character of the joined text that is no white space is in some chunk.
pub fixed_window_chunk_total :
    (p : Platform)
    → PlatformLaws p
    → (c : Configuration) (document_id : ℕ) (s : NormalizedSection) (rest : List NormalizedSection)
    → c.overlap < c.size
    → LaidOut 0 (s ∷ rest)
    → encodable (joined (s ∷ rest)) ≡ true
    → (chunks : List Chunk) × (fixed_window_chunk p c document_id (s ∷ rest) ≡ ok chunks)
      × AreChunks p c.size document_id (s ∷ rest) chunks
unfolding fixed_window_chunk
fixed_window_chunk_total p laws c document_id s rest small laid fine =
    let (ws, found, are) = windows_total p laws c.size c.overlap (joined (s ∷ rest)) small in
    let m = fixed_chunks-Made p laws c.size document_id s rest laid 0 ws fine are.each in
    (
      m.chunks,
      rw (windows_or_raise-ok p c (joined (s ∷ rest)) ws found) m.returned,
      record {
        exact = m.exact;
        cited = m.cited;
        covered = λ i solid. m.covered i (are.every i solid);
      },
    )

-- Without the condition on the text, the chunker raises the encoding error or returns such chunks.
pub fixed_window_chunk-outcomes :
    (p : Platform)
    → PlatformLaws p
    → (c : Configuration) (document_id : ℕ) (s : NormalizedSection) (rest : List NormalizedSection)
    → c.overlap < c.size
    → LaidOut 0 (s ∷ rest)
    → (fixed_window_chunk p c document_id (s ∷ rest) ≡ err value_error)
      ⊎ ((chunks : List Chunk) × (fixed_window_chunk p c document_id (s ∷ rest) ≡ ok chunks)
          × AreChunks p c.size document_id (s ∷ rest) chunks)
unfolding fixed_window_chunk
fixed_window_chunk-outcomes p laws c document_id s rest small laid =
    let (ws, found, are) = windows_total p laws c.size c.overlap (joined (s ∷ rest)) small in
    let windowed = windows_or_raise-ok p c (joined (s ∷ rest)) ws found in
    elim (fixed_chunks-outcomes p laws c.size document_id s rest laid 0 ws are.each) [
      | inl raised ↦ inl (rw windowed raised)
      | inr m ↦ inr (
        m.chunks,
        rw windowed m.returned,
        record {
          exact = m.exact;
          cited = m.cited;
          covered = λ i solid. m.covered i (are.every i solid);
        },
      )
    ]
