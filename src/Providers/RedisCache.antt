-- ===== src/Providers/RedisCache.antt =====
-- class RedisSearchResultCache of knowledge_search/providers/redis_cache.py. The Redis client, over
-- a state of its own, and the JSON text of pydantic are parameters.
use enterprise_knowledge_sea.Common.{
  ℕ, ◌≡◌, ◌≢◌, refl, Option, none, some, Text, List, [], ◌∷◌, ◌++◌, map, All, ℤ, arith,
}
use enterprise_knowledge_sea.Status.{DocumentMediaType}
use enterprise_knowledge_sea.Errors.{Error, Result, ok, err, ◌>>=◌, redis_error, validation_error}
use enterprise_knowledge_sea.Domain.Chunk.{citation_post_init}
use enterprise_knowledge_sea.Retrieval.Models.{SearchMode, SearchResult}
use enterprise_knowledge_sea.Application.Search.{SearchExecution}

pub record CachedCitation : Type 0 where
  pub document_id : ℕ
  pub chunk_id : ℕ
  pub original_filename : Text
  pub excerpt : Text
  pub section_path : List Text
  pub page_number : Option ℤ

pub record CachedResult (F : Type 0) : Type 0 where
  pub score : F
  pub keyword_rank : Option ℤ
  pub vector_rank : Option ℤ
  pub media_type : DocumentMediaType
  pub citation : CachedCitation

pub record CachedExecution (F : Type 0) : Type 0 where
  pub query : Text
  pub mode : SearchMode
  pub results : List (CachedResult F)

-- The client: what `get` returns, none where it is no `str`, and `set` with a time to live; and
-- `model_dump_json` with `model_validate_json`.
pub record Client (F R : Type 0) : Type 0 where
  pub get : Text → R → Result (Option Text)
  pub set : Text → Text → ℤ → R → Result (Unit {0}) × R
  pub dump_json : CachedExecution F → Text
  pub validate_json : Text → Result (CachedExecution F)
  pub key_prefix : Text

module _ {F : Type 0} where
  unfoldable pub serialize_result : SearchResult F → CachedResult F
  serialize_result result = record {
    score = result.score;
    keyword_rank = result.keyword_rank;
    vector_rank = result.vector_rank;
    media_type = result.media_type;
    citation = record {
      document_id = result.citation.document_id;
      chunk_id = result.citation.chunk_id;
      original_filename = result.citation.original_filename;
      excerpt = result.citation.excerpt;
      section_path = result.citation.section_path;
      page_number = result.citation.page_number;
    };
  }

  -- `_serialize`
  unfoldable pub serialize : SearchExecution F → CachedExecution F
  serialize execution = record {
    query = execution.query;
    mode = execution.mode;
    results = map serialize_result execution.results;
  }

  unfoldable pub deserialize_result : CachedResult F → Result (SearchResult F)
  deserialize_result item = do
    citation ← citation_post_init (record {
      document_id = item.citation.document_id;
      chunk_id = item.citation.chunk_id;
      original_filename = item.citation.original_filename;
      excerpt = item.citation.excerpt;
      section_path = item.citation.section_path;
      page_number = item.citation.page_number;
    })
    ok (record {
      score = item.score;
      keyword_rank = item.keyword_rank;
      vector_rank = item.vector_rank;
      media_type = item.media_type;
      citation = citation;
    })

  unfoldable pub deserialize_results : List (CachedResult F) → Result (List (SearchResult F))
  deserialize_results [] = ok []
  deserialize_results (item ∷ more) = do
    result ← deserialize_result item
    rest ← deserialize_results more
    ok (result ∷ rest)

  -- `_deserialize`
  unfoldable pub deserialize : CachedExecution F → Result (SearchExecution F)
  deserialize payload = do
    results ← deserialize_results payload.results
    ok (record { query = payload.query; mode = payload.mode; results = results })

  -- `except (RedisError, ValidationError): return None`
  abbrev pub missing : Result (Option (SearchExecution F)) → Result (Option (SearchExecution F))
  missing (ok found) = ok found
  missing (err redis_error) = ok none
  missing (err validation_error) = ok none
  missing (err e) = err e

module _ {F R : Type 0} (client : Client F R) where
  unfoldable pub prefixed : Text → Text
  prefixed key = client.key_prefix ++ (b':' ∷ key)

  -- the body of the `try` in `get`
  unfoldable pub found : Option Text → Result (Option (SearchExecution F))
  found none = ok none
  found (some value) = do
    payload ← client.validate_json value
    execution ← deserialize payload
    ok (some execution)

  -- `get`
  unfoldable pub get : Text → R → Result (Option (SearchExecution F))
  get key redis = missing (client.get (prefixed key) redis >>= λ value. found value)

  -- `set`
  unfoldable pub set : Text → SearchExecution F → ℤ → R → Result (Unit {0}) × R
  set key execution ttl_seconds redis =
      let (done, redis1) =
        client.set (prefixed key) (client.dump_json (serialize execution)) ttl_seconds redis in
      elim done [
        | ok _ ↦ (ok tt, redis1)
        | err redis_error ↦ (ok tt, redis1)
        | err e ↦ (err e, redis1)
      ]

-- What is documented of the client: a value that is accepted is read under its key until it
-- expires.
pub record ClientLaws {F R : Type 0} (client : Client F R) : Type 0 where
  pub get-set :
      (key value : Text) (ttl : ℤ) (redis : R)
      → (client.set key value ttl redis).0 ≡ ok tt
      → client.get key (client.set key value ttl redis).1 ≡ ok (some value)

-- A result whose citation is valid.
abbrev pub IsCited : {F : Type 0} → SearchResult F → Type 0
IsCited r = citation_post_init r.citation ≡ ok r.citation

module _ {F : Type 0} where
  deserialize_result-serialize_result :
      (r : SearchResult F) → IsCited r → deserialize_result (serialize_result r) ≡ ok r
  unfolding deserialize_result serialize_result
  deserialize_result-serialize_result r h = rw h refl

  deserialize_results-map :
      (rs : List (SearchResult F))
      → All IsCited rs
      → deserialize_results (map serialize_result rs) ≡ ok rs
  unfolding deserialize_results
  deserialize_results-map [] a = refl
  deserialize_results-map (r ∷ rs) a =
      rw (deserialize_result-serialize_result r a.0, deserialize_results-map rs a.1) refl

  -- An execution whose citations are valid is read back from its payload.
  pub deserialize-serialize :
      (execution : SearchExecution F)
      → All IsCited execution.results
      → deserialize (serialize execution) ≡ ok execution
  unfolding deserialize serialize
  deserialize-serialize execution a = rw (deserialize_results-map execution.results a) refl

module _ {F R : Type 0} (client : Client F R) (laws : ClientLaws client) where
  -- Over a client that keeps what it accepts, an execution with valid citations that is set, and
  -- whose payload is validated from its own JSON text, is what the cache gets under its key.
  pub get-set :
      (key : Text) (execution : SearchExecution F) (ttl_seconds : ℤ) (redis : R)
      → All IsCited execution.results
      → client.validate_json (client.dump_json (serialize execution)) ≡ ok (serialize execution)
      → (client.set
          (prefixed client key)
          (client.dump_json (serialize execution))
          ttl_seconds
          redis).0
        ≡ ok tt
      → get client key (set client key execution ttl_seconds redis).1 ≡ ok (some execution)
  unfolding get set found
  get-set key execution ttl_seconds redis a back h =
      let value = client.dump_json (serialize execution) in
      let read = laws.get-set (prefixed client key) value ttl_seconds redis h in
      let whole = deserialize-serialize execution a in
      let after : (set client key execution ttl_seconds redis).1
          ≡ (client.set (prefixed client key) value ttl_seconds redis).1 =
        ground arith in
      rw (after, read, back, whole) refl

  -- Whatever the client does, a `get` that raises has not failed on the client or on the payload.
  pub get_raised :
      (key : Text) (redis : R) (e : Error)
      → get client key redis ≡ err e
      → (e ≢ redis_error) × (e ≢ validation_error)
  unfolding get
  get_raised key redis e h = ground arith
