-- ===== src/Application/Search/Candidates.antt =====
-- The candidates and the ranking of a search, as its ports give them.
use enterprise_knowledge_sea.Common.{◌≡◌, refl, Text, List, [], ◌∷◌, map, arith, ℤ, ap, sym, ◌∙◌}
use enterprise_knowledge_sea.Errors.{ok, err, ok-injective, >>=-eq-ok, lookup_error}
use enterprise_knowledge_sea.Retrieval.Models.{
  Floats, SearchMode, SearchFilters, RetrievalCandidate, FusedCandidate,
}
use enterprise_knowledge_sea.Application.Search.{
  SearchService, rank, from_keyword, from_vector, vector_candidates,
}
use enterprise_knowledge_sea.Retrieval.Ranking.{reciprocal_rank_fusion}

module _ {F Vector : Type 0} (f : Floats F) (service : SearchService F Vector) where
  -- The keyword candidates that the mode asks for: none, or those of the repository.
  abbrev pub HasKeywords :
      SearchMode → Text → ℤ → SearchFilters → List (RetrievalCandidate F) → Type 0
  HasKeywords SearchMode.vector query limit filters list = list ≡ []
  HasKeywords _ query limit filters list = service.keyword_candidates query limit filters ≡ ok list

  -- The vector candidates that the mode asks for: none, or those of the index for the first vector
  -- that the query is embedded as.
  abbrev pub HasVectors :
      SearchMode → Text → ℤ → SearchFilters → List (RetrievalCandidate F) → Type 0
  HasVectors SearchMode.keyword query limit filters list = list ≡ []
  HasVectors _ query limit filters list =
      (v : Vector) × (rest : List Vector) × (service.embed_documents (query ∷ []) ≡ ok (v ∷ rest))
      × (service.search_vectors v limit filters ≡ ok list)

  -- The ranking of the mode: the order of its one list, or the fusion of both.
  abbrev pub IsRanking :
      SearchMode
      → List (RetrievalCandidate F)
      → List (RetrievalCandidate F)
      → List (FusedCandidate F)
      → Type 0
  IsRanking SearchMode.keyword kl vl ranked =
      map (λ c. c.chunk_id) ranked ≡ map (λ c. c.chunk_id) kl
  IsRanking SearchMode.vector kl vl ranked = map (λ c. c.chunk_id) ranked ≡ map (λ c. c.chunk_id) vl
  IsRanking SearchMode.hybrid kl vl ranked =
      reciprocal_rank_fusion f kl vl service.rrf_k ≡ ok ranked

  pub from_keyword-HasKeywords :
      (mode : SearchMode) (query : Text) (limit : ℤ) (filters : SearchFilters)
      (list : List (RetrievalCandidate F))
      → from_keyword f service mode query limit filters ≡ ok list
      → HasKeywords mode query limit filters list
  from_keyword-HasKeywords SearchMode.vector query limit filters list h = sym (ok-injective h)
  from_keyword-HasKeywords SearchMode.keyword query limit filters list h = h
  from_keyword-HasKeywords SearchMode.hybrid query limit filters list h = h

  embedded :
      (query : Text) (limit : ℤ) (filters : SearchFilters) (vectors : List Vector)
      (list : List (RetrievalCandidate F))
      → service.embed_documents (query ∷ []) ≡ ok vectors
      → (elim vectors [ [] ↦ err lookup_error | v ∷ rest ↦ service.search_vectors v limit filters ])
        ≡ ok list
      → HasVectors SearchMode.hybrid query limit filters list
  embedded query limit filters [] list e h = absurd (ground arith)
  embedded query limit filters (v ∷ rest) list e h = (v, rest, e, h)

  vector_candidates-HasVectors :
      (query : Text) (limit : ℤ) (filters : SearchFilters) (list : List (RetrievalCandidate F))
      → vector_candidates f service query limit filters ≡ ok list
      → HasVectors SearchMode.hybrid query limit filters list
  unfolding vector_candidates
  vector_candidates-HasVectors query limit filters list h =
      let (vectors, e, rest) = >>=-eq-ok (service.embed_documents (query ∷ [])) _ h in
      embedded query limit filters vectors list e rest

  pub from_vector-HasVectors :
      (mode : SearchMode) (query : Text) (limit : ℤ) (filters : SearchFilters)
      (list : List (RetrievalCandidate F))
      → from_vector f service mode query limit filters ≡ ok list
      → HasVectors mode query limit filters list
  from_vector-HasVectors SearchMode.keyword query limit filters list h = sym (ok-injective h)
  from_vector-HasVectors SearchMode.vector query limit filters list h =
      vector_candidates-HasVectors query limit filters list h
  from_vector-HasVectors SearchMode.hybrid query limit filters list h =
      vector_candidates-HasVectors query limit filters list h

  ids_kept :
      (wrap : RetrievalCandidate F → FusedCandidate F)
      → ((c : RetrievalCandidate F) → (wrap c).chunk_id ≡ c.chunk_id)
      → (list : List (RetrievalCandidate F))
      → map (λ c. c.chunk_id) (map wrap list) ≡ map (λ c. c.chunk_id) list
  ids_kept wrap same [] = refl
  ids_kept wrap same (c ∷ list) = rw (same c, ids_kept wrap same list) refl

  pub rank-IsRanking :
      (mode : SearchMode) (kl vl : List (RetrievalCandidate F)) (ranked : List (FusedCandidate F))
      → rank f service mode kl vl ≡ ok ranked
      → IsRanking mode kl vl ranked
  unfolding rank
  rank-IsRanking SearchMode.hybrid kl vl ranked h = h
  rank-IsRanking SearchMode.keyword kl vl ranked h =
      ap (map (λ c. c.chunk_id)) (sym (ok-injective h)) ∙ ids_kept _ (λ c. refl) kl
  rank-IsRanking SearchMode.vector kl vl ranked h =
      ap (map (λ c. c.chunk_id)) (sym (ok-injective h)) ∙ ids_kept _ (λ c. refl) vl
