-- ===== src/Application/Cache.antt =====
-- class CachedSearchService of knowledge_search/application/cache.py. The cache, over a state of
-- its own, and the corpus revision are ports.
pub mod Served
use enterprise_knowledge_sea.Common.{
  ℕ, Bool, true, false, ◌≡◌, Option, none, some, Text, List, [], ◌∷◌, map, ◌==◌, ltb, leb, ℤ, pos,
  negsuc, if◌then◌else◌, arith, inl, inr, Option-cases,
}
use enterprise_knowledge_sea.Errors.{Result, ok, err}
use enterprise_knowledge_sea.Status.{media_type_value}
use enterprise_knowledge_sea.Retrieval.Models.{SearchMode, SearchFilters}
use enterprise_knowledge_sea.Application.Search.{SearchExecution, normalize_query}

-- `sorted`, by a test for what may stay in front
unfoldable pub insert_by : {A : Type 0} → (A → A → Bool) → A → List A → List A
insert_by before a [] = a ∷ []
insert_by before a (b ∷ more) =
    let rest = insert_by before a more in if before a b then a ∷ b ∷ more else b ∷ rest

unfoldable pub sort_by : {A : Type 0} → (A → A → Bool) → List A → List A
sort_by before [] = []
sort_by before (a ∷ more) = insert_by before a (sort_by before more)

-- the order of texts
unfoldable pub text_leb : Text → Text → Bool
text_leb [] t = true
text_leb (c ∷ s) [] = false
text_leb (c ∷ s) (d ∷ t) = let rest = text_leb s t in if c == d then rest else ltb c d

-- The search, the corpus revision and the cache. `digest` is the SHA-256 of the JSON text of the
-- fields, in the order query, mode, limit, document_ids, media_types, corpus_revision.
pub record CachePorts (F Cache : Type 0) : Type 0 where
  pub search : Text → SearchMode → ℤ → SearchFilters → Result (SearchExecution F)
  pub current : Result ℤ
  pub digest : Text → SearchMode → ℤ → List ℕ → List Text → ℤ → Text
  pub get : Text → Cache → Option (SearchExecution F)
  pub set : Text → SearchExecution F → ℤ → Cache → Cache
  pub ttl_seconds : ℤ

abbrev pub is_zero : ℤ → Bool
is_zero (pos n) = n == 0
is_zero (negsuc n) = false

module _ {F Cache : Type 0} (ports : CachePorts F Cache) where
  -- `_cache_key`; the texts of UUIDs are in the order of the UUIDs
  unfoldable pub cache_key : Text → SearchMode → ℤ → SearchFilters → ℤ → Text
  cache_key query mode limit filters corpus_revision =
      ports.digest (normalize_query query) mode limit (sort_by leb filters.document_ids)
        (sort_by text_leb (map media_type_value filters.media_types)) corpus_revision

  -- `search`
  unfoldable pub cached_search :
      Text → SearchMode → ℤ → SearchFilters → Cache → Result (SearchExecution F) × Cache
  cached_search query mode limit filters cache =
      if is_zero ports.ttl_seconds
      then (ports.search query mode limit filters, cache)
      else elim ports.current [
        | err e ↦ (err e, cache)
        | ok revision ↦
            let key = cache_key query mode limit filters revision in
            elim (ports.get key cache) [
              | some execution ↦ (ok execution, cache)
              | none ↦ elim (ports.search query mode limit filters) [
                | err e ↦ (err e, cache)
                | ok execution ↦ (ok execution, ports.set key execution ports.ttl_seconds cache)
              ]
            ]
      ]
