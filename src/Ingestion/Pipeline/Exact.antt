-- ===== src/Ingestion/Pipeline/Exact.antt =====
-- What a chunk of a joined text is worth, and that making one from a window cannot fail.
use enterprise_knowledge_sea.Common.{
  ℕ, zero, suc, ◌-◌, ◌≤◌, ◌<◌, ◌≡◌, refl, ap, ◌∙◌, ◌⊎◌, true, false, Text, List, [], ◌∷◌, some, pos,
  pos_part, ◌≤ℤ◌, length, slice, take, drop, arith,
}
use enterprise_knowledge_sea.Errors.{ok, err, value_error}
use enterprise_knowledge_sea.Platform.{Platform, PlatformLaws, encodable}
use enterprise_knowledge_sea.Domain.Locator
use enterprise_knowledge_sea.Domain.Locator.{SourceLocator}
use enterprise_knowledge_sea.Domain.Chunk
use enterprise_knowledge_sea.Domain.Chunk.{Chunk, chunk_namespace, stable_key}
use enterprise_knowledge_sea.Ingestion.Windows.{TextWindow, windows}
use enterprise_knowledge_sea.Ingestion.Windows.Coverage.{IsWindow}
use enterprise_knowledge_sea.Ingestion.Chunking.{Configuration, create_chunk, windows_or_raise}

module _ (p : Platform) (size : ℕ) (full : Text) (document_id : ℕ) where
  -- The chunk with a number: a valid chunk of the document, of at most `size` tokens, whose text
  -- is the slice of the joined text between the offsets of its locator.
  pub record IsChunkOf (number : ℕ) (c : Chunk) : Type 0 where
    pub document : c.document_id ≡ document_id
    pub ordinal : c.ordinal ≡ pos number
    pub id :
        c.id ≡ p.uuid5 chunk_namespace (stable_key p document_id (pos number) (p.sha256_hex c.text))
    pub tokens : c.token_count ≤ℤ pos size
    pub start : ℕ
    pub stop : ℕ
    pub starts : c.locator.char_start ≡ pos start
    pub stops : c.locator.char_end ≡ pos stop
    pub range : start < stop
    pub inside : stop ≤ length full
    pub exact : c.text ≡ slice start stop full
    pub valid : Chunk.IsValid c
    pub placed : Locator.IsValid c.locator

  -- Consecutive numbers.
  abbrev pub AreChunksOf : ℕ → List Chunk → Type 0
  AreChunksOf number [] = Unit
  AreChunksOf number (c ∷ cs) = IsChunkOf number c × AreChunksOf (suc number) cs

-- The offsets of some chunk hold the position.
abbrev pub InChunk : List Chunk → ℕ → Type 0
InChunk [] i = ⊥
InChunk (c ∷ cs) i =
    ((pos_part c.locator.char_start ≤ i) × (i < pos_part c.locator.char_end)) ⊎ InChunk cs i

-- The chunk that `_create_chunk` makes of a window.
abbrev pub made : Platform → ℕ → ℕ → TextWindow → SourceLocator → Chunk
made p document_id number w locator = record {
  id = p.uuid5 chunk_namespace (stable_key p document_id (pos number) (p.sha256_hex w.text));
  document_id = document_id;
  ordinal = pos number;
  text = w.text;
  token_count = pos w.token_count;
  content_hash = p.sha256_hex w.text;
  locator = locator;
}

encodable-drop : (n : ℕ) (s : Text) → encodable s ≡ true → encodable (drop n s) ≡ true
unfolding encodable
encodable-drop zero s h = h
encodable-drop (suc n) [] h = h
encodable-drop (suc n) (c ∷ s) h = encodable-drop n s (ground arith)

encodable-take : (n : ℕ) (s : Text) → encodable s ≡ true → encodable (take n s) ≡ true
unfolding encodable
encodable-take zero s h = refl
encodable-take (suc n) [] h = h
encodable-take (suc n) (c ∷ s) h =
    let rest : encodable (take n s) ≡ true = encodable-take n s (ground arith) in ground arith

-- A slice of a text that UTF-8 encodes is encoded too.
pub encodable-slice :
    (start stop : ℕ) (s : Text) → encodable s ≡ true → encodable (slice start stop s) ≡ true
encodable-slice start stop s h =
    encodable-take (stop - start) (drop start s) (encodable-drop start s h)

module _ (p : Platform) (laws : PlatformLaws p) (size : ℕ) (text : Text) (w : TextWindow)
    (is : IsWindow size text w) where
  pub made-IsValid :
      (document_id number : ℕ) (locator : SourceLocator)
      → Chunk.IsValid (made p document_id number w locator)
  made-IsValid document_id number locator = record {
    ordinal = omega arith;
    text = is.visible;
    tokens = omega (arith, is.some_tokens);
    hash = laws.sha256_hex-is_sha256 w.text;
  }

  -- A window makes a chunk where UTF-8 encodes its text, and raises elsewhere.
  pub create_chunk_fits :
      (document_id number : ℕ) (locator : SourceLocator)
      → encodable w.text ≡ true
      → create_chunk p document_id number w locator ≡ ok (made p document_id number w locator)
  unfolding create_chunk Chunk.create
  create_chunk_fits document_id number locator fine = rw fine (
      Chunk.post_init_of_IsValid (made p document_id number w locator)
        (made-IsValid document_id number locator))

  pub create_chunk_raised :
      (document_id number : ℕ) (locator : SourceLocator)
      → encodable w.text ≡ false
      → create_chunk p document_id number w locator ≡ err value_error
  unfolding create_chunk
  create_chunk_raised document_id number locator bad = rw bad refl

  -- A window of a text that UTF-8 encodes is encoded.
  pub encodable-window : encodable text ≡ true → encodable w.text ≡ true
  encodable-window h = ap encodable is.exact ∙ encodable-slice w.char_start w.char_end text h

pub windows_or_raise-ok :
    (p : Platform) (c : Configuration) (text : Text) (ws : List TextWindow)
    → windows p c.size c.overlap text ≡ some ws
    → windows_or_raise p c text ≡ ok ws
unfolding windows_or_raise
windows_or_raise-ok p c text ws e = rw (e, windows_or_raise)
