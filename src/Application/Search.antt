-- ===== src/Application/Search.antt =====
-- class SearchService of knowledge_search/application/search.py. Each port may raise.
pub mod Candidates
pub mod Results
use enterprise_knowledge_sea.Common.{
  ℕ, suc, Bool, true, false, ◌||◌, Option, none, some, Text, List, [], ◌∷◌, ◌++◌, map, ◌==◌,
  if◌then◌else◌, is_space, is_empty, length, ℤ, pos, negsuc, ltb_ℤ, times,
}
use enterprise_knowledge_sea.Errors.{
  Result, ok, err, raise_if, ◌>>=◌, ◌>>◌, value_error, search_query_error, lookup_error,
}
use enterprise_knowledge_sea.Domain.Chunk.{Citation, citation_post_init}
use enterprise_knowledge_sea.Retrieval.Models.{
  Floats, SearchMode, keyword, vector, hybrid, SearchFilters, RetrievalCandidate, FusedCandidate,
  SearchableChunk, SearchResult,
}
use enterprise_knowledge_sea.Retrieval.Ranking.{reciprocal_rank_fusion}

pub record SearchExecution (F : Type 0) : Type 0 where
  pub query : Text
  pub mode : SearchMode
  pub results : List (SearchResult F)

-- the repository, the embedding provider and the vector index, with the two settings
pub record SearchService (F Vector : Type 0) : Type 0 where
  pub keyword_candidates : Text → ℤ → SearchFilters → Result (List (RetrievalCandidate F))
  pub load_chunks : List ℕ → Result (ℕ → Option SearchableChunk)
  pub embed_documents : List Text → Result (List Vector)
  pub search_vectors : Vector → ℤ → SearchFilters → Result (List (RetrievalCandidate F))
  pub candidate_multiplier : ℤ
  pub rrf_k : ℤ

-- `__init__`
unfoldable pub configure :
    {F Vector : Type 0} → SearchService F Vector → Result (SearchService F Vector)
configure service = do
  raise_if (ltb_ℤ service.candidate_multiplier (pos 1)) value_error
  raise_if (ltb_ℤ service.rrf_k (pos 1)) value_error
  ok service

-- `query.split()`, with the characters of the word that is being read
unfoldable pub split_words : Text → Text → List Text
split_words [] word = if is_empty word then [] else word ∷ []
split_words (c ∷ s) word =
    let here = split_words s [] in
    let further = split_words s (word ++ (c ∷ [])) in
    if is_space c then (if is_empty word then here else word ∷ here) else further

-- `" ".join(words)`
unfoldable pub join_words : List Text → Text
join_words [] = []
join_words (w ∷ []) = w
join_words (w ∷ ws) = let rest = join_words ws in w ++ (b' ' ∷ rest)

abbrev pub normalize_query : Text → Text
normalize_query query = join_words (split_words query [])

-- `len(results) == limit`
abbrev pub is_full : ℕ → ℤ → Bool
is_full n (pos m) = n == m
is_full n (negsuc m) = false

-- the citation of a chunk and the result for a candidate
unfoldable pub to_result :
    {F : Type 0} → FusedCandidate F → SearchableChunk → Result (SearchResult F)
to_result candidate chunk = do
  citation ← citation_post_init (record {
    document_id = chunk.document_id;
    chunk_id = chunk.id;
    original_filename = chunk.original_filename;
    excerpt = chunk.text;
    section_path = chunk.locator.section_path;
    page_number = chunk.locator.page_number;
  })
  ok (record {
    score = candidate.score;
    keyword_rank = candidate.keyword_rank;
    vector_rank = candidate.vector_rank;
    media_type = chunk.media_type;
    citation = citation;
  })

-- the loop over the ranked candidates, after `found` results
unfoldable pub collect :
    {F : Type 0}
    → (ℕ → Option SearchableChunk)
    → ℤ
    → ℕ
    → List (FusedCandidate F)
    → Result (List (SearchResult F))
collect chunks limit found [] = ok []
collect chunks limit found (candidate ∷ more) =
    let skipped = collect chunks limit found more in
    let further = collect chunks limit (suc found) more in
    elim (chunks candidate.chunk_id) [
      | none ↦ skipped
      | some chunk ↦ do
        result ← to_result candidate chunk
        if is_full (suc found) limit
            then ok (result ∷ [])
            else (further >>= λ rest. ok (result ∷ rest))
    ]

module _ {F Vector : Type 0} (f : Floats F) (service : SearchService F Vector) where
  -- `_vector_candidates`
  unfoldable pub vector_candidates : Text → ℤ → SearchFilters → Result (List (RetrievalCandidate F))
  vector_candidates query limit filters = do
    vectors ← service.embed_documents (query ∷ [])
    elim vectors [ [] ↦ err lookup_error | v ∷ rest ↦ service.search_vectors v limit filters ]

  -- `_rank`
  unfoldable pub rank :
      SearchMode
      → List (RetrievalCandidate F)
      → List (RetrievalCandidate F)
      → Result (List (FusedCandidate F))
  rank hybrid from_keyword from_vector =
      reciprocal_rank_fusion f from_keyword from_vector service.rrf_k
  rank keyword from_keyword from_vector = ok (
      map
        (λ c. record {
          chunk_id = c.chunk_id;
          score = c.score;
          keyword_rank = some c.rank;
          vector_rank = none;
        })
        from_keyword)
  rank vector from_keyword from_vector = ok (
      map
        (λ c. record {
          chunk_id = c.chunk_id;
          score = c.score;
          keyword_rank = none;
          vector_rank = some c.rank;
        })
        from_vector)

  -- the candidates of a source that the mode may not ask for
  abbrev pub from_keyword :
      SearchMode → Text → ℤ → SearchFilters → Result (List (RetrievalCandidate F))
  from_keyword vector query limit filters = ok []
  from_keyword mode query limit filters = service.keyword_candidates query limit filters

  abbrev pub from_vector :
      SearchMode → Text → ℤ → SearchFilters → Result (List (RetrievalCandidate F))
  from_vector keyword query limit filters = ok []
  from_vector mode query limit filters = vector_candidates query limit filters

  -- `search`
  unfoldable pub search : Text → SearchMode → ℤ → SearchFilters → Result (SearchExecution F)
  search query mode limit filters = do
    let normalized_query = normalize_query query
    raise_if (is_empty normalized_query) search_query_error
    raise_if (ltb_ℤ limit (pos 1)) search_query_error
    let candidate_limit = times limit service.candidate_multiplier
    keyword_list ← from_keyword mode normalized_query candidate_limit filters
    vector_list ← from_vector mode normalized_query candidate_limit filters
    ranked ← rank mode keyword_list vector_list
    chunks ← service.load_chunks (map (λ c. c.chunk_id) ranked)
    results ← collect chunks limit 0 ranked
    ok (record { query = normalized_query; mode = mode; results = results })
