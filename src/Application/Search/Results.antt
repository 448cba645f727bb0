-- ===== src/Application/Search/Results.antt =====
-- What a search returns: the first chunks of the ranking that are there, up to the limit.
use enterprise_knowledge_sea.Common.{
  ℕ, zero, suc, false, ◌≡◌, refl, inl, inr, Option, none, some, Text, List, [], ◌∷◌, map, ◌+◌,
  arith, is_empty, ℤ, pos, negsuc, ltb_ℤ, times, take, Option-cases, ap, sym, ◌∙◌,
}
use enterprise_knowledge_sea.Errors.{ok, Result-cases}
use enterprise_knowledge_sea.Domain.Chunk.{citation_post_init}
use enterprise_knowledge_sea.Retrieval.Models.{
  Floats, SearchMode, SearchFilters, RetrievalCandidate, FusedCandidate, SearchableChunk,
  SearchResult,
}
use enterprise_knowledge_sea.Application.Search.{
  SearchExecution, SearchService, to_result, collect, rank, normalize_query, from_keyword,
  from_vector, search,
}
use enterprise_knowledge_sea.Application.Search.Candidates.{
  HasKeywords, HasVectors, IsRanking, from_keyword-HasKeywords, from_vector-HasVectors,
  rank-IsRanking,
}

-- the ids of the chunks that are there, in the order of the ranking
abbrev pub present : {F : Type 0} → (ℕ → Option SearchableChunk) → List (FusedCandidate F) → List ℕ
present chunks [] = []
present chunks (c ∷ more) =
    let rest = present chunks more in
    elim (chunks c.chunk_id) [ none ↦ rest | some k ↦ k.id ∷ rest ]

-- the chunks that results cite
abbrev pub cited : {F : Type 0} → List (SearchResult F) → List ℕ
cited [] = []
cited (r ∷ more) = r.citation.chunk_id ∷ cited more

to_result_returned :
    {F : Type 0} (c : FusedCandidate F) (k : SearchableChunk) (r : SearchResult F)
    → to_result c k ≡ ok r
    → r.citation.chunk_id ≡ k.id
unfolding to_result citation_post_init
to_result_returned c k r h = ground arith

cite_next :
    {F : Type 0} (chunks : ℕ → Option SearchableChunk) (found n : ℕ) (c : FusedCandidate F)
    (k : SearchableChunk) (more : List (FusedCandidate F)) (r : SearchResult F)
    (results : List (SearchResult F))
    → ((n' : ℕ) (rest : List (SearchResult F))
        → collect chunks (pos (suc found + suc n')) (suc found) more ≡ ok rest
        → cited rest ≡ take (suc n') (present chunks more))
    → chunks c.chunk_id ≡ some k
    → to_result c k ≡ ok r
    → collect chunks (pos (found + suc n)) found (c ∷ more) ≡ ok results
    → cited results ≡ take (suc n) (present chunks (c ∷ more))
unfolding collect
cite_next chunks found zero c k more r results ih e g h = ground (arith, to_result_returned c k r g)
cite_next chunks found (suc n) c k more r results ih e g h =
    elim (Result-cases (collect chunks (pos (suc found + suc n)) (suc found) more)) [
      | inr (x, m) ↦ ground arith
      | inl (rest, m) ↦ ground (arith, to_result_returned c k r g, ih n rest m)
    ]

collect_cites :
    {F : Type 0} (chunks : ℕ → Option SearchableChunk) (found n : ℕ)
    (ranked : List (FusedCandidate F)) (results : List (SearchResult F))
    → collect chunks (pos (found + suc n)) found ranked ≡ ok results
    → cited results ≡ take (suc n) (present chunks ranked)
unfolding collect
collect_cites chunks found n [] results h = ground arith
collect_cites chunks found n (c ∷ more) results h = elim (Option-cases (chunks c.chunk_id)) [
  | inl e ↦ ground (arith, collect_cites chunks found n more results)
  | inr (k, e) ↦ elim (Result-cases (to_result c k)) [
    | inr (x, g) ↦ ground arith
    | inl (r, g) ↦
        cite_next chunks found n c k more r results
          (λ n' rest m. collect_cites chunks (suc found) n' more rest m) e g h
  ]
]

at_least_one : (a : ℤ) → ltb_ℤ a (pos 1) ≡ false → (n : ℕ) × (a ≡ pos (suc n))
at_least_one (pos zero) h = ground arith
at_least_one (pos (suc n)) h = (n, refl)
at_least_one (negsuc n) h = ground arith

zero_more : (n : ℕ) → pos (0 + suc n) ≡ pos (suc n)
zero_more n = ground arith

module _ {F Vector : Type 0} (f : Floats F) (service : SearchService F Vector) where
  -- what is left of a search whose ports have returned
  search_stages :
      (query : Text) (mode : SearchMode) (limit : ℤ) (filters : SearchFilters)
      (execution : SearchExecution F) (kl vl : List (RetrievalCandidate F))
      (ranked : List (FusedCandidate F)) (chunks : ℕ → Option SearchableChunk)
      → search f service query mode limit filters ≡ ok execution
      → from_keyword f service mode
          (normalize_query query)
          (times limit service.candidate_multiplier)
          filters
        ≡ ok kl
      → from_vector f service mode
          (normalize_query query)
          (times limit service.candidate_multiplier)
          filters
        ≡ ok vl
      → rank f service mode kl vl ≡ ok ranked
      → service.load_chunks (map (λ c. c.chunk_id) ranked) ≡ ok chunks
      → (is_empty (normalize_query query) ≡ false)
        × (execution.query ≡ normalize_query query)
        × (ltb_ℤ limit (pos 1) ≡ false)
        × (collect chunks limit 0 ranked ≡ ok execution.results)
  unfolding search
  search_stages query mode limit filters execution kl vl ranked chunks h e1 e2 e3 e4 = ground arith

  -- A search that returns had a query with a word and a limit of at least 1. Its ports returned the
  -- keyword and the vector candidates that the mode asks for, for the normalized query and the limit
  -- times the multiplier; the ranking is the order of the one list, or in hybrid mode the fusion of
  -- both, and the results cite its first chunks that could be loaded, in the order of the ranking
  -- and as many as the limit allows.
  pub search_cites :
      (query : Text) (mode : SearchMode) (limit : ℤ) (filters : SearchFilters)
      (execution : SearchExecution F)
      → search f service query mode limit filters ≡ ok execution
      → (is_empty (normalize_query query) ≡ false)
        × (execution.query ≡ normalize_query query)
        × (n : ℕ) × (limit ≡ pos (suc n))
        × (keyword_list : List (RetrievalCandidate F)) × (vector_list : List (RetrievalCandidate F))
        × (ranked : List (FusedCandidate F)) × (chunks : ℕ → Option SearchableChunk) × HasKeywords f
            service mode
            (normalize_query query)
            (times limit service.candidate_multiplier)
            filters
            keyword_list
        × HasVectors f service mode
            (normalize_query query)
            (times limit service.candidate_multiplier)
            filters
            vector_list
        × IsRanking f service mode keyword_list vector_list ranked
        × (service.load_chunks (map (λ c. c.chunk_id) ranked) ≡ ok chunks)
        × (cited execution.results ≡ take (suc n) (present chunks ranked))
  unfolding search
  search_cites query mode limit filters execution h =
      let asked = normalize_query query in
      let wide = times limit service.candidate_multiplier in
      elim (Result-cases (from_keyword f service mode asked wide filters)) [
        | inr (x, e) ↦ ground arith
        | inl (kl, e1) ↦ elim (Result-cases (from_vector f service mode asked wide filters)) [
          | inr (x, e) ↦ ground arith
          | inl (vl, e2) ↦ elim (Result-cases (rank f service mode kl vl)) [
            | inr (x, e) ↦ ground arith
            | inl (ranked, e3) ↦
                elim (Result-cases (service.load_chunks (map (λ c. c.chunk_id) ranked))) [
                  | inr (x, e) ↦ ground arith
                  | inl (chunks, e4) ↦
                      let (a, b, c, d) =
                        search_stages query mode limit filters execution kl vl ranked chunks h e1 e2
                          e3 e4 in
                      let (n, e) = at_least_one limit c in
                      (
                        a,
                        b,
                        n,
                        e,
                        kl,
                        vl,
                        ranked,
                        chunks,
                        from_keyword-HasKeywords f service mode asked wide filters kl e1,
                        from_vector-HasVectors f service mode asked wide filters vl e2,
                        rank-IsRanking f service mode kl vl ranked e3,
                        e4,
                        collect_cites chunks 0 n ranked execution.results
                            (ap (λ m. collect chunks m 0 ranked) (zero_more n ∙ sym e) ∙ d),
                      )
                ]
          ]
        ]
      ]
