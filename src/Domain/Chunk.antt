-- ===== src/Domain/Chunk.antt =====
-- classes Chunk and Citation of knowledge_search/domain/documents.py.
use enterprise_knowledge_sea.Common.{
  ℕ, true, false, ◌≡◌, Option, Text, List, [], ◌∷◌, ◌++◌, blank, ℤ, pos, ltb_ℤ, ◌≤ℤ◌, arith,
}
use enterprise_knowledge_sea.Errors.{
  Result, ok, forbid, ◌>>◌, negative_ordinal, blank_chunk_text, token_count_not_positive,
  blank_citation_filename, blank_excerpt, citation_page_not_positive,
}
use enterprise_knowledge_sea.Domain.Checks.{is_sha256, validate_sha256}
use enterprise_knowledge_sea.Domain.Locator.{SourceLocator, page_below_one}
use enterprise_knowledge_sea.Platform.{Platform, PlatformLaws, contains}

pub record Chunk : Type 0 where
  pub id : ℕ
  pub document_id : ℕ
  pub ordinal : ℤ
  pub text : Text
  pub token_count : ℤ
  pub content_hash : Text
  pub locator : SourceLocator

-- `__post_init__`
unfoldable pub post_init : Chunk → Result Chunk
unfolding validate_sha256
post_init c = do
  forbid (ltb_ℤ c.ordinal (pos 0)) negative_ordinal
  forbid (blank c.text) blank_chunk_text
  forbid (ltb_ℤ c.token_count (pos 1)) token_count_not_positive
  validate_sha256 c.content_hash
  ok c

pub record IsValid (c : Chunk) : Type 0 where
  pub ordinal : pos 0 ≤ℤ c.ordinal
  pub text : blank c.text ≡ false
  pub tokens : pos 1 ≤ℤ c.token_count
  pub hash : is_sha256 c.content_hash ≡ true

pub IsValid-post_init : (c d : Chunk) → post_init c ≡ ok d → IsValid c × (d ≡ c)
unfolding post_init
IsValid-post_init c d h = ground arith

pub post_init_of_IsValid : (c : Chunk) → IsValid c → post_init c ≡ ok c
unfolding post_init
post_init_of_IsValid c v = ground arith

-- `CHUNK_NAMESPACE`
abbrev pub chunk_namespace : ℕ
chunk_namespace = 0x30a8a70d4e6a48cd981e02faf07d1b10

module _ (p : Platform) where
  -- `f"{document_id}:{ordinal}:{content_hash}"`
  unfoldable pub stable_key : ℕ → ℤ → Text → Text
  stable_key document_id ordinal content_hash =
      p.uuid_text document_id ++ (b':' ∷ (p.int_text ordinal ++ (b':' ∷ content_hash)))

  unfoldable pub create : ℕ → ℤ → Text → ℤ → Text → SourceLocator → Result Chunk
  create document_id ordinal text token_count content_hash locator = post_init (record {
    id = p.uuid5 chunk_namespace (stable_key document_id ordinal content_hash);
    document_id = document_id;
    ordinal = ordinal;
    text = text;
    token_count = token_count;
    content_hash = content_hash;
    locator = locator;
  })

-- Two texts with no colon before their first colons split the same way.
split_at_colon :
    (a b s t : Text)
    → contains b':' a ≡ false
    → contains b':' b ≡ false
    → a ++ (b':' ∷ s) ≡ b ++ (b':' ∷ t)
    → (a ≡ b) × (s ≡ t)
split_at_colon [] [] s t ha hb e = ground arith
split_at_colon [] (d ∷ b) s t ha hb e = absurd (ground arith)
split_at_colon (c ∷ a) [] s t ha hb e = absurd (ground arith)
split_at_colon (c ∷ a) (d ∷ b) s t ha hb e = ground (arith, split_at_colon a b s t)

-- The stable key of a chunk determines its document, its ordinal and its content hash, so that
-- two chunks share an identifier only where `uuid5` collides.
pub stable_key-injective :
    (p : Platform)
    → PlatformLaws p
    → (d d' : ℕ) (n n' : ℤ) (h h' : Text) → stable_key p d n h ≡ stable_key p d' n' h'
    → (d ≡ d') × (n ≡ n') × (h ≡ h')
unfolding stable_key
stable_key-injective p laws d d' n n' h h' e =
    let (same_uuid, rest) =
      split_at_colon (p.uuid_text d) (p.uuid_text d') _ _ (laws.uuid_text-no_colon d)
        (laws.uuid_text-no_colon d') e in
    let (same_int, same_hash) =
      split_at_colon (p.int_text n) (p.int_text n') h h' (laws.int_text-no_colon n)
        (laws.int_text-no_colon n') rest in
    (laws.uuid_text-injective d d' same_uuid, laws.int_text-injective n n' same_int, same_hash)

pub record Citation : Type 0 where
  pub document_id : ℕ
  pub chunk_id : ℕ
  pub original_filename : Text
  pub excerpt : Text
  pub section_path : List Text
  pub page_number : Option ℤ

-- `Citation.__post_init__`
unfoldable pub citation_post_init : Citation → Result Citation
citation_post_init c = do
  forbid (blank c.original_filename) blank_citation_filename
  forbid (blank c.excerpt) blank_excerpt
  forbid (page_below_one c.page_number) citation_page_not_positive
  ok c

pub citation_post_init-returned : (c d : Citation) → citation_post_init c ≡ ok d → d ≡ c
unfolding citation_post_init
citation_post_init-returned c d h = ground arith
