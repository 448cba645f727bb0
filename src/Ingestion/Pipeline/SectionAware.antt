-- ===== src/Ingestion/Pipeline/SectionAware.antt =====
-- `SectionAwareChunker.chunk` on sections that are placed in their joined text.
pub mod Slices
use enterprise_knowledge_sea.Common.{
  ℕ, zero, suc, ◌+◌, ◌-◌, ◌≤◌, ◌<◌, ◌≡◌, refl, ap, sym, ◌∙◌, ◌⊎◌, inl, inr, true, false, Bool-cases,
  Text, List, [], ◌∷◌, ◌++◌, pos, pos-+ℤ, ◌+ℤ◌, ◌≤ℤ◌, length, slice, All, All-append, All-imp,
  length-append, length-take, length-drop, take, drop, arith,
}
use Slices.{slice-slice, InSection, joined-InSection}
use enterprise_knowledge_sea.Errors.{Result, ok, err, ◌>>=◌, value_error}
use enterprise_knowledge_sea.Platform.{Platform, PlatformLaws, encodable}
use enterprise_knowledge_sea.Domain.Locator
use enterprise_knowledge_sea.Domain.Locator.{SourceLocator}
use enterprise_knowledge_sea.Domain.Chunk.{Chunk}
use enterprise_knowledge_sea.Ingestion.Models.{NormalizedSection, joined}
use enterprise_knowledge_sea.Ingestion.Windows.{TextWindow}
use enterprise_knowledge_sea.Ingestion.Windows.Coverage.{
  IsWindow, AreWindows, InChars, windows_total,
}
use enterprise_knowledge_sea.Ingestion.Tokens.Spans.{IsSolid}
use enterprise_knowledge_sea.Ingestion.Chunking.{
  Configuration, section_chunks, section_aware_from, section_aware_chunk, windows_or_raise,
}
use enterprise_knowledge_sea.Ingestion.Pipeline.Offsets.{
  BeginsAt, LaidOut, IsPlaced, LaidOut-IsPlaced,
}
use enterprise_knowledge_sea.Ingestion.Pipeline.Sources.{OneOf}
use enterprise_knowledge_sea.Ingestion.Pipeline.Exact.{
  IsChunkOf, AreChunksOf, InChunk, made, made-IsValid, create_chunk_fits, create_chunk_raised,
  encodable-window, encodable-slice,
}

-- A chunk lies inside one section, and carries its path and page.
pub record IsWithin (sections : List NormalizedSection) (c : Chunk) : Type 0 where
  pub section : NormalizedSection
  pub member : OneOf sections section
  pub path : c.locator.section_path ≡ section.locator.section_path
  pub page : c.locator.page_number ≡ section.locator.page_number
  pub low : section.locator.char_start ≤ℤ c.locator.char_start
  pub high : c.locator.char_end ≤ℤ section.locator.char_end

-- the locator that the loop gives to the chunk of a window
abbrev located : NormalizedSection → TextWindow → SourceLocator
located s w = record {
  section_path = s.locator.section_path;
  page_number = s.locator.page_number;
  char_start = s.locator.char_start +ℤ pos w.char_start;
  char_end = s.locator.char_start +ℤ pos w.char_end;
}

-- A placed section lies inside the text, if it is not empty.
placed_inside :
    (at : ℕ) (full t : Text)
    → slice at (at + length t) full ≡ t
    → 0 < length t
    → at + length t ≤ length full
placed_inside at full t e h = omega (
  arith,
  ap (λ (z : Text). length z) e,
  length-take (at + length t - at) (drop at full),
  length-drop at full,
)

module _ (p : Platform) (laws : PlatformLaws p) (size document_id : ℕ) (full : Text)
    (s : NormalizedSection) (is_placed : IsPlaced full s) where
  open is_placed use {at, begins}

  starts_at : (n : ℕ) → s.locator.char_start +ℤ pos n ≡ pos (at + n)
  starts_at n = ap (λ z. z +ℤ pos n) begins.start ∙ pos-+ℤ at n

  located-IsValid : (w : TextWindow) → IsWindow size s.text w → Locator.IsValid (located s w)
  located-IsValid w is = record {
    path = begins.valid.path;
    page = begins.valid.page;
    start = rw (starts_at w.char_start) (omega arith);
    range = rw (starts_at w.char_start) (rw (starts_at w.char_end) (omega (arith, is.range)));
  }

  -- What the inner loop returns: a chunk for each window of the section.
  pub record Made (number : ℕ) (ws : List TextWindow) : Type 0 where
    pub chunks : List Chunk
    pub returned : section_chunks p document_id s number ws ≡ ok chunks
    pub exact : AreChunksOf p size full document_id number chunks
    pub within : All (IsWithin (s ∷ [])) chunks
    pub covered : (i : ℕ) → InChars ws i → InChunk chunks (at + i)

  made-IsChunkOf :
      (number : ℕ) (w : TextWindow)
      → IsWindow size s.text w
      → IsChunkOf p size full document_id number (made p document_id number w (located s w))
  made-IsChunkOf number w is = record {
    document = refl;
    ordinal = refl;
    id = refl;
    tokens = omega (arith, is.few_tokens);
    start = at + w.char_start;
    stop = at + w.char_end;
    starts = starts_at w.char_start;
    stops = starts_at w.char_end;
    range = omega (arith, is.range);
    inside = omega (arith, is.inside, is.range, placed_inside at full s.text is_placed.exact);
    exact =
        is.exact
        ∙ slice-slice at (length s.text) w.char_start w.char_end full s.text is_placed.exact
            (omega (arith, is.range)) is.inside;
    valid = made-IsValid p laws size s.text w is document_id number (located s w);
    placed = located-IsValid w is;
  }

  made-IsWithin :
      (number : ℕ) (w : TextWindow)
      → IsWindow size s.text w
      → IsWithin (s ∷ []) (made p document_id number w (located s w))
  made-IsWithin number w is = record {
    section = s;
    member = inl refl;
    path = refl;
    page = refl;
    low = rw (starts_at w.char_start) (rw begins.start (omega arith));
    high = rw (starts_at w.char_end) (rw begins.end (omega (arith, is.inside)));
  }

  step :
      (number : ℕ) (w : TextWindow) (ws : List TextWindow)
      → encodable w.text ≡ true
      → IsWindow size s.text w
      → Made (suc number) ws
      → Made number (w ∷ ws)
  unfolding section_chunks
  step number w ws fine is more = record {
    chunks = made p document_id number w (located s w) ∷ more.chunks;
    returned = rw (Locator.post_init_of_IsValid (located s w) (located-IsValid w is)) (
        rw (create_chunk_fits p laws size s.text w is document_id number (located s w) fine)
          (rw more.returned));
    exact = (made-IsChunkOf number w is, more.exact);
    within = (made-IsWithin number w is, more.within);
    covered = λ i seen. elim seen [
      | inl here ↦
          inl (rw (starts_at w.char_start) (omega arith), rw (starts_at w.char_end) (omega arith))
      | inr later ↦ inr (more.covered i later)
    ];
  }

  from_windows :
      (number : ℕ) (ws : List TextWindow)
      → encodable s.text ≡ true
      → All (IsWindow size s.text) ws
      → Made number ws
  from_windows number [] fine h = record {
    chunks = [];
    returned = unfold section_chunks in refl;
    exact = tt;
    within = tt;
    covered = λ i k. k;
  }
  from_windows number (w ∷ ws) fine (is, h) =
      step number w ws (encodable-window p laws size s.text w is fine) is
        (from_windows (suc number) ws fine h)

  pub section_chunks-Made :
      (number : ℕ) (ws : List TextWindow)
      → encodable full ≡ true
      → All (IsWindow size s.text) ws
      → Made number ws
  section_chunks-Made number ws fine h =
      from_windows number ws
        (ap encodable (sym is_placed.exact) ∙ encodable-slice at (at + length s.text) full fine) h

  -- The inner loop stops at the first window whose text UTF-8 does not encode, here or later.
  stopped :
      (number : ℕ) (w : TextWindow) (ws : List TextWindow)
      → IsWindow size s.text w
      → (encodable w.text ≡ false)
        ⊎ ((encodable w.text ≡ true)
            × (section_chunks p document_id s (suc number) ws ≡ err value_error))
      → section_chunks p document_id s number (w ∷ ws) ≡ err value_error
  unfolding section_chunks
  stopped number w ws is why =
      rw (Locator.post_init_of_IsValid (located s w) (located-IsValid w is)) (elim why [
        | inl bad ↦
            rw (create_chunk_raised p laws size s.text w is document_id number (located s w) bad)
              refl
        | inr (fine, later) ↦
            rw (create_chunk_fits p laws size s.text w is document_id number (located s w) fine)
              (rw later refl)
      ])

  pub section_chunks-outcomes :
      (number : ℕ) (ws : List TextWindow)
      → All (IsWindow size s.text) ws
      → (section_chunks p document_id s number ws ≡ err value_error) ⊎ Made number ws
  section_chunks-outcomes number [] h = inr (record {
    chunks = [];
    returned = unfold section_chunks in refl;
    exact = tt;
    within = tt;
    covered = λ i k. k;
  })
  section_chunks-outcomes number (w ∷ ws) (is, h) = elim (Bool-cases (encodable w.text)) [
    | inr bad ↦ inl (stopped number w ws is (inl bad))
    | inl fine ↦ elim (section_chunks-outcomes (suc number) ws h) [
      | inl later ↦ inl (stopped number w ws is (inr (fine, later)))
      | inr more ↦ inr (step number w ws fine is more)
    ]
  ]
