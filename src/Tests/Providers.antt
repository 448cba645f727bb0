-- ===== src/Tests/Providers.antt =====
-- The providers over clients in memory.
use enterprise_knowledge_sea.Common.{
  ℕ, ◌≡◌, refl, true, Option, none, some, Text, codes, strip, blank, is_space, List, [], ◌∷◌, map,
  length, All, pos, text_eq, text_eq_refl, if◌then◌else◌, ◌+◌, arith,
}
use enterprise_knowledge_sea.Status.{
  DocumentStatus, markdown, media_type_of_value, media_type_value,
}
use enterprise_knowledge_sea.Errors.{Result, ok}
use enterprise_knowledge_sea.Domain.Locator
use enterprise_knowledge_sea.Domain.Chunk.{Citation, citation_post_init}
use enterprise_knowledge_sea.Persistence.Records.{
  ChunkRecord, DocumentRecord, document_to_record, chunk_to_record,
}
use enterprise_knowledge_sea.Persistence.Search.{with_chunk, chunk_dictionary, searchable_chunk}
use enterprise_knowledge_sea.Retrieval.Models.{
  keyword, SearchFilters, SearchableChunk, RetrievalCandidate, candidate_post_init,
}
use enterprise_knowledge_sea.Retrieval.Candidates.{numbered}
use enterprise_knowledge_sea.Application.Search.{SearchExecution}
use enterprise_knowledge_sea.Providers.RedisCache as RedisCache
use enterprise_knowledge_sea.Providers.RedisCache.{CachedExecution, ClientLaws}
use enterprise_knowledge_sea.Providers.Qdrant as Qdrant
use enterprise_knowledge_sea.Providers.Qdrant.{
  Point, search_returned, upsert_embedded, translating, qdrant_filter,
}
use enterprise_knowledge_sea.Providers.Embeddings.{embed_documents, any_other_length}
use enterprise_knowledge_sea.Tests.{document}
use enterprise_knowledge_sea.Tests.Processor.{chunk}

abbrev citation : Citation
citation = record {
  document_id = 5;
  chunk_id = 9;
  original_filename = codes "a.md";
  excerpt = codes "one";
  section_path = [];
  page_number = none;
}

abbrev execution : SearchExecution ℕ
execution = record {
  query = codes "one";
  mode = keyword;
  results =
      record {
        score = 3;
        keyword_rank = some (pos 1);
        vector_rank = none;
        media_type = markdown;
        citation = citation;
      }
      ∷ [];
}

execution_cited : All RedisCache.IsCited execution.results
unfolding citation_post_init blank strip is_space
execution_cited = (refl, tt)

-- a client with room for one value, and one text for the one payload
abbrev redis : RedisCache.Client ℕ (Text × Text)
redis = record {
  get = λ key s. ok (if text_eq key s.0 then some s.1 else none);
  set = λ key value ttl s. (ok tt, (key, value));
  dump_json = λ payload. codes "{}";
  validate_json = λ value. ok (RedisCache.serialize execution);
  key_prefix = codes "eks:search";
}

redis-laws : ClientLaws redis
redis-laws = record { get-set = λ key value ttl s h. ground (arith, text_eq_refl key) }

get-set_example :
    RedisCache.get redis
      (codes "k")
      (RedisCache.set redis (codes "k") execution (pos 60) (codes "", codes "")).1
    ≡ ok (some execution)
get-set_example =
    RedisCache.get-set redis redis-laws (codes "k") execution (pos 60) (codes "", codes "")
      execution_cited refl refl

-- a vector index that keeps the number of its points
abbrev qdrant : Qdrant.Client ℕ ℕ
qdrant = record {
  collection_exists = λ v. ok true;
  vector_size = λ v. ok (some 2);
  create_collection = λ n v. (ok tt, v);
  create_payload_index = λ f v. (ok tt, v);
  upsert = λ points v. (ok tt, v + length points);
  query_points = λ vector filter limit v. ok ((7, 90) ∷ (8, 80) ∷ []);
  delete_matching = λ f value v. (ok tt, 0);
  get_collections = λ v. ok tt;
  uuid_text = λ id. id ∷ [];
}

abbrev no_filters : SearchFilters
no_filters = record { document_ids = []; media_types = [] }

abbrev ranked : List (RetrievalCandidate ℕ)
ranked =
    record { chunk_id = 7; rank = pos 1; score = 90 }
    ∷ record { chunk_id = 8; rank = pos 2; score = 80 }
    ∷ []

search_test : Qdrant.search qdrant (1 ∷ 2 ∷ []) (pos 5) no_filters 0 ≡ ok ranked
unfolding Qdrant.search numbered candidate_post_init
search_test = refl

abbrev vectors : List (List ℕ)
vectors = (1 ∷ 2 ∷ []) ∷ []

abbrev embed : List Text → Result (List (List ℕ))
embed texts = ok (map (λ t. 1 ∷ 2 ∷ []) texts)

embed_test : embed_documents embed 2 (map (λ c. c.text) (chunk ∷ [])) ≡ ok ((1 ∷ 2 ∷ []) ∷ [])
unfolding embed_documents any_other_length
embed_test = refl

abbrev rows : List (ChunkRecord × DocumentRecord)
rows = (chunk_to_record chunk, document_to_record (document DocumentStatus.queued 2 none)) ∷ []

abbrev loaded : SearchableChunk
loaded = record {
  id = chunk.id;
  document_id = chunk.document_id;
  text = chunk.text;
  original_filename = codes "notes.md";
  media_type = markdown;
  locator = chunk.locator;
}

abbrev chunks : ℕ → Option SearchableChunk
chunks = with_chunk 7 loaded (λ id. none)

rows_test : chunk_dictionary rows ≡ ok chunks
unfolding chunk_dictionary searchable_chunk chunk_to_record document_to_record media_type_of_value
    media_type_value text_eq Locator.post_init
rows_test = refl
