-- ===== src/Tests/Retrieval.antt =====
-- A hybrid search over two short lists, and the services in front of it.
use enterprise_knowledge_sea.Common.{
  ℕ, ◌+◌, ◌-◌, Bool, true, false, ◌≡◌, refl, ◌⊎◌, Option, none, some, Text, codes, List, [], ◌∷◌,
  map, ◌==◌, ltb, ℤ, pos, pos_part, if◌then◌else◌, arith, is_empty, is_space, strip, blank, ◌+ℤ◌,
  times, suc, take, text_eq, text_eq_sound, sym, inl, inr, Bool-cases,
}
use enterprise_knowledge_sea.Status.{markdown}
use enterprise_knowledge_sea.Errors.{ok, err, search_query_error}
use enterprise_knowledge_sea.Domain.Chunk.{citation_post_init}
use enterprise_knowledge_sea.Retrieval.Models.{
  Floats, hybrid, SearchFilters, RetrievalCandidate, FusedCandidate, SearchableChunk, SearchResult,
}
use enterprise_knowledge_sea.Retrieval.Ranking.{
  reciprocal_rank_fusion, fused, add_scores, add_score, sort_candidates, insert_sorted,
  comes_before, rank_of,
}
use enterprise_knowledge_sea.Retrieval.Ranking.Scores.{score_of, total, fused_scores}
use enterprise_knowledge_sea.Retrieval.Ranking.Sorted.{
  FloatsLaws, AreOrdered, count, reciprocal_rank_fusion_total,
}
use enterprise_knowledge_sea.Application.Search.{
  SearchService, SearchExecution, normalize_query, split_words, join_words, vector_candidates, rank,
  collect, to_result, search,
}
use enterprise_knowledge_sea.Application.Search.Results.{cited, present, search_cites}
use enterprise_knowledge_sea.Application.Search.Candidates.{HasKeywords, HasVectors, IsRanking}
use enterprise_knowledge_sea.Application.Answers.{
  AnswerPorts, AnswerExecution, answer, generated, disabled, insufficient_evidence, chat_ports,
  IsQuoted, answer_grounded,
}
use enterprise_knowledge_sea.Generation.HttpChat.{
  Http, ChatCompletionsAnswerGenerator, initialize, exchange, answer_of, generate,
}
use enterprise_knowledge_sea.Tests.{platform}
use enterprise_knowledge_sea.Application.Cache.{
  CachePorts, cached_search, cache_key, sort_by, insert_by,
}
use enterprise_knowledge_sea.Application.Cache.Served.{
  Call, CacheLaws, fields_of, digest_of, IsOf, served, grown, start, next, Reached-served,
}

-- whole numbers in place of floats, with a falling function for the reciprocal
abbrev floats : Floats ℕ
floats = record {
  zero = 0;
  add = λ a b. a + b;
  reciprocal = λ n. 1000 - pos_part n;
  greater = λ a b. ltb b a;
  same = λ a b. a == b;
}

floats_laws : FloatsLaws floats
floats_laws = record {
  same-sym = λ a b. ground arith;
  greater-asym = λ a b h. ground arith;
  same-not_greater = λ a b h. ground arith;
}

abbrev candidate : ℕ → ℕ → RetrievalCandidate ℕ
candidate id rank = record { chunk_id = id; rank = pos rank; score = 100 - rank }

abbrev by_keyword : List (RetrievalCandidate ℕ)
by_keyword = candidate 1 1 ∷ candidate 2 2 ∷ []

abbrev by_vector : List (RetrievalCandidate ℕ)
by_vector = candidate 2 1 ∷ candidate 3 2 ∷ []

reciprocal_rank_fusion_total_example :
    (ranked : List (FusedCandidate ℕ)) × (reciprocal_rank_fusion floats by_keyword by_vector
        (pos 60)
      ≡ ok ranked)
    × AreOrdered floats ranked
    × ((p : FusedCandidate ℕ → Bool)
        → count p ranked
          ≡ count p (
              map
                (fused floats by_keyword by_vector)
                (add_scores floats (pos 60) by_vector (add_scores floats (pos 60) by_keyword []))))
reciprocal_rank_fusion_total_example =
    reciprocal_rank_fusion_total floats floats_laws by_keyword by_vector (pos 60) refl

fused_scores_example :
    score_of 2 (add_scores floats (pos 60) by_vector (add_scores floats (pos 60) by_keyword []))
    ≡ total floats (pos 60) 2 by_vector (total floats (pos 60) 2 by_keyword none)
fused_scores_example = fused_scores floats (pos 60) 2 by_keyword by_vector

abbrev searchable : ℕ → SearchableChunk
searchable id = record {
  id = id;
  document_id = 5;
  text = codes "one two";
  original_filename = codes "notes.md";
  media_type = markdown;
  locator = record { section_path = []; page_number = none; char_start = pos 0; char_end = pos 7 };
}

-- chunk 1 is no longer there
abbrev service : SearchService ℕ ℕ
service = record {
  keyword_candidates = λ query limit filters. ok by_keyword;
  load_chunks = λ ids. ok (λ id. if id == 1 then none else some (searchable id));
  embed_documents = λ texts. ok (0 ∷ []);
  search_vectors = λ v limit filters. ok by_vector;
  candidate_multiplier = pos 3;
  rrf_k = pos 60;
}

abbrev unfiltered : SearchFilters
unfiltered = record { document_ids = []; media_types = [] }

abbrev result : ℕ → ℕ → Option ℤ → Option ℤ → SearchResult ℕ
result id score k v = record {
  score = score;
  keyword_rank = k;
  vector_rank = v;
  media_type = markdown;
  citation = record {
    document_id = 5;
    chunk_id = id;
    original_filename = codes "notes.md";
    excerpt = codes "one two";
    section_path = [];
    page_number = none;
  };
}

abbrev execution : SearchExecution ℕ
execution = record {
  query = codes "what now";
  mode = hybrid;
  results = result 2 1877 (some (pos 2)) (some (pos 1)) ∷ result 3 938 none (some (pos 2)) ∷ [];
}

search_test : search floats service (codes "  what  now ") hybrid (pos 2) unfiltered ≡ ok execution
unfolding search join_words split_words is_space vector_candidates rank reciprocal_rank_fusion
    collect sort_candidates add_scores add_score insert_sorted comes_before ◌+ℤ◌ to_result
    citation_post_init blank rank_of times strip
search_test = refl

search_cites_example :
    (is_empty (normalize_query (codes "  what  now ")) ≡ false)
    × (execution.query ≡ normalize_query (codes "  what  now "))
    × (n : ℕ) × (pos 2 ≡ pos (suc n))
    × (keyword_list : List (RetrievalCandidate ℕ)) × (vector_list : List (RetrievalCandidate ℕ))
    × (ranked : List (FusedCandidate ℕ)) × (chunks : ℕ → Option SearchableChunk) × HasKeywords
        floats service hybrid
        (normalize_query (codes "  what  now "))
        (times (pos 2) service.candidate_multiplier)
        unfiltered
        keyword_list
    × HasVectors floats service hybrid
        (normalize_query (codes "  what  now "))
        (times (pos 2) service.candidate_multiplier)
        unfiltered
        vector_list
    × IsRanking floats service hybrid keyword_list vector_list ranked
    × (service.load_chunks (map (λ c. c.chunk_id) ranked) ≡ ok chunks)
    × (cited execution.results ≡ take (suc n) (present chunks ranked))
search_cites_example =
    search_cites floats service (codes "  what  now ") hybrid (pos 2) unfiltered execution
      search_test

-- every reply is the same text
abbrev replying : Http ℕ Text Text
replying = record {
  open_client = λ timeout. record { post = λ url headers request t. ok (codes " now\n") };
  raise_for_status = λ response. ok tt;
  json = λ response. ok response;
  model_validate =
      λ body. ok (record { choices = record { message = record { content = body } } ∷ [] });
}

abbrev chat : ChatCompletionsAnswerGenerator ℕ Text
chat = initialize (codes "http://llm/v1/") (codes "m") none 30 none

abbrev answering : AnswerPorts ℕ
answering = chat_ports (search floats service) true replying chat platform

abbrev answered : AnswerExecution ℕ
answered = record {
  question = codes "what now";
  answer = some (codes "now");
  status = generated;
  search = execution;
}

generated_test :
    generate replying chat platform (codes "what now") (map (λ r. r.citation) execution.results)
    ≡ ok (codes "now")
unfolding generate exchange answer_of strip is_space
generated_test = refl

answer_test : answer answering (codes "  what  now ") hybrid (pos 2) unfiltered ≡ ok answered
unfolding answer
answer_test = rw search_test (rw generated_test refl)

answer_grounded_example :
    (search floats service (codes "  what  now ") hybrid (pos 2) unfiltered ≡ ok execution)
    × (answered.question ≡ execution.query)
    × (((answered.status ≡ disabled) × (true ≡ false) × (answered.answer ≡ none))
        ⊎ (((answered.status ≡ insufficient_evidence)
              × (true ≡ true)
              × (is_empty execution.results ≡ true)
              × (answered.answer ≡ none))
            ⊎ ((answered.status ≡ generated)
                × (true ≡ true)
                × (is_empty execution.results ≡ false)
                × (text : Text) × (answered.answer ≡ some text)
                × IsQuoted replying chat platform (map (λ r. r.citation) execution.results) text)))
answer_grounded_example =
    answer_grounded (search floats service) true replying chat platform (codes "  what  now ")
      hybrid (pos 2) unfiltered answered answer_test

-- a cache of one entry, with its key; the digest is the query and the revision
abbrev cache_ports : CachePorts ℕ (Option (Text × SearchExecution ℕ))
cache_ports = record {
  search = λ query mode limit filters. ok execution;
  current = ok (pos 4);
  digest = λ query mode limit ids types revision. pos_part revision ∷ query;
  get = λ key cache. elim cache [
    | none ↦ none
    | some (k, found) ↦ if text_eq key k then some found else none
  ];
  set = λ key found ttl cache. some (key, found);
  ttl_seconds = pos 60;
}

cache_laws : CacheLaws cache_ports
cache_laws = record {
  get-set = λ k l e x ttl cache h. elim (Bool-cases (text_eq k l)) [
    | inl same ↦ inl (sym (text_eq_sound k l same), ground arith)
    | inr other ↦ absurd (ground arith)
  ];
}

-- a call while the search finds something, and one with the same words when it finds nothing
abbrev first_call : Call ℕ
first_call = record {
  query = codes "what  now";
  mode = hybrid;
  limit = pos 2;
  filters = unfiltered;
  search = λ query mode limit filters. ok execution;
  current = ok (pos 4);
}

abbrev second_call : Call ℕ
second_call = record first_call {
  query = codes " what now";
  search = λ query mode limit filters. err search_query_error;
}

abbrev reached : Option (Text × SearchExecution ℕ)
reached = (served cache_ports first_call none).1

hit_test : (served cache_ports second_call reached).0 ≡ ok execution
unfolding cached_search cache_key join_words split_words is_space text_eq sort_by insert_by
hit_test = refl

Reached-served_example :
    (second_call.search (codes " what now") hybrid (pos 2) unfiltered ≡ ok execution)
    ⊎ IsOf cache_ports
        (grown first_call [])
        (digest_of cache_ports (fields_of second_call (pos 4)))
        execution
Reached-served_example =
    Reached-served cache_ports cache_laws none (grown first_call []) reached second_call (pos 4)
      execution (λ k. refl) (next start first_call) refl hit_test
