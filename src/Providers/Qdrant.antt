-- ===== src/Providers/Qdrant.antt =====
-- class QdrantVectorIndex of knowledge_search/providers/qdrant_index.py. The Qdrant client, over a
-- state of its own, is a parameter; a vector is a list of floats.
use enterprise_knowledge_sea.Common.{
  ℕ, ◌≡◌, refl, Bool, true, false, not, Option, none, some, Text, codes, List, [], ◌∷◌, ◌++◌, map,
  length, is_empty, ◌==◌, if◌then◌else◌, ℤ, arith, inl, inr, ◌⊎◌, subst, sym, ap, ◌∙◌, All,
  length-map,
}
use enterprise_knowledge_sea.Status.{media_type_value}
use enterprise_knowledge_sea.Errors.{
  Result, ok, err, raise_if, ◌>>=◌, vector_index_error, qdrant_api_error, qdrant_response_error,
  Result-cases,
}
use enterprise_knowledge_sea.Domain.Document.{Document}
use enterprise_knowledge_sea.Domain.Chunk.{Chunk}
use enterprise_knowledge_sea.Retrieval.Models.{RetrievalCandidate, SearchFilters}
use enterprise_knowledge_sea.Providers.Embeddings.{embed_documents, embed_documents_outcomes}
use enterprise_knowledge_sea.Retrieval.Candidates.{numbered, AreNumberedFrom, numbered_total}

-- `PointStruct`
pub record Point (F : Type 0) : Type 0 where
  pub id : ℕ
  pub vector : List F
  pub document_id : Text
  pub media_type : Text
  pub ordinal : ℤ
  pub section_path : List Text
  pub page_number : Option ℤ
  pub content_hash : Text

-- `FieldCondition(key=field, match=MatchAny(any=values))`
pub record Condition : Type 0 where
  pub field : Text
  pub any_of : List Text

-- The client's calls on the collection. `vector_size` is the size of its `VectorParams`, none for
-- another configuration.
pub record Client (F V : Type 0) : Type 0 where
  pub collection_exists : V → Result Bool
  pub vector_size : V → Result (Option ℕ)
  pub create_collection : ℕ → V → Result (Unit {0}) × V
  pub create_payload_index : Text → V → Result (Unit {0}) × V
  pub upsert : List (Point F) → V → Result (Unit {0}) × V
  pub query_points : List F → Option (List Condition) → ℤ → V → Result (List (ℕ × F))
  pub delete_matching : Text → Text → V → Result (Unit {0}) × V
  pub get_collections : V → Result (Unit {0})
  pub uuid_text : ℕ → Text

-- `except (ApiException, ResponseHandlingException) as error: raise VectorIndexError(...)`
abbrev pub translated : {A : Type 0} → Result A → Result A
translated (ok a) = ok a
translated (err qdrant_api_error) = err vector_index_error
translated (err qdrant_response_error) = err vector_index_error
translated (err e) = err e

-- a call, and a second one where the first returned
abbrev pub and_then :
    {V : Type 0} → Result (Unit {0}) × V → (V → Result (Unit {0}) × V) → Result (Unit {0}) × V
and_then (ok _, v) call = call v
and_then (err e, v) call = (err e, v)

abbrev pub translating : {V : Type 0} → Result (Unit {0}) × V → Result (Unit {0}) × V
translating (r, v) = (translated r, v)

module _ {F V : Type 0} (client : Client F V) where
  -- the collection, with the configured dimensions
  unfoldable pub checked_collection : ℕ → V → Result (Unit {0}) × V
  checked_collection dimensions index = elim (client.collection_exists index) [
    | err e ↦ (err e, index)
    | ok false ↦ client.create_collection dimensions index
    | ok true ↦ elim (client.vector_size index) [
      | err e ↦ (err e, index)
      | ok none ↦ (err vector_index_error, index)
      | ok (some size) ↦ (raise_if (not (size == dimensions)) vector_index_error, index)
    ]
  ]

  -- `ensure_collection`
  unfoldable pub ensure_collection : ℕ → V → Result (Unit {0}) × V
  ensure_collection dimensions index = translating (
      and_then (checked_collection dimensions index) (λ v.
        and_then (client.create_payload_index (codes "document_id") v)
          (λ w. client.create_payload_index (codes "media_type") w)))

  unfoldable pub point_of : Document → Chunk → List F → Point F
  point_of document chunk vector = record {
    id = chunk.id;
    vector = vector;
    document_id = client.uuid_text chunk.document_id;
    media_type = media_type_value document.media_type;
    ordinal = chunk.ordinal;
    section_path = chunk.locator.section_path;
    page_number = chunk.locator.page_number;
    content_hash = chunk.content_hash;
  }

  -- the points of chunks and vectors in pairs
  unfoldable pub points_of : Document → List Chunk → List (List F) → List (Point F)
  points_of document [] vectors = []
  points_of document (c ∷ chunks) [] = []
  points_of document (c ∷ chunks) (v ∷ vectors) =
      point_of document c v ∷ points_of document chunks vectors

  -- `upsert`
  unfoldable pub upsert : Document → List Chunk → List (List F) → V → Result (Unit {0}) × V
  upsert document chunks vectors index =
      if not (length chunks == length vectors)
      then (err vector_index_error, index)
      else translating (client.upsert (points_of document chunks vectors) index)

  -- `_qdrant_filter`
  unfoldable pub qdrant_filter : SearchFilters → Option (List Condition)
  qdrant_filter filters =
      let documents : Condition = record {
        field = codes "document_id";
        any_of = map client.uuid_text filters.document_ids;
      } in
      let types : Condition = record {
        field = codes "media_type";
        any_of = map media_type_value filters.media_types;
      } in
      let conditions : List Condition =
        (if is_empty filters.document_ids then [] else documents ∷ [])
        ++ (if is_empty filters.media_types then [] else types ∷ []) in
      if is_empty conditions then none else some conditions

  -- `search`
  unfoldable pub search : List F → ℤ → SearchFilters → V → Result (List (RetrievalCandidate F))
  search vector limit filters index = elim (translated (client.collection_exists index)) [
    | err e ↦ err e
    | ok false ↦ ok []
    | ok true ↦ do
      points ← translated (client.query_points vector (qdrant_filter filters) limit index)
      numbered 1 points
  ]

  -- `delete_document`
  unfoldable pub delete_document : ℕ → V → Result (Unit {0}) × V
  delete_document document_id index = elim (translated (client.collection_exists index)) [
    | err e ↦ (err e, index)
    | ok false ↦ (ok tt, index)
    | ok true ↦
        translating
          (client.delete_matching (codes "document_id") (client.uuid_text document_id) index)
  ]

  -- `is_ready`
  unfoldable pub is_ready : V → Result Bool
  is_ready index = elim (client.get_collections index) [
    | ok _ ↦ ok true
    | err qdrant_api_error ↦ ok false
    | err qdrant_response_error ↦ ok false
    | err e ↦ err e
  ]

module _ {F V : Type 0} (client : Client F V) where
  translated_returned : {A : Type 0} (r : Result A) (a : A) → translated r ≡ ok a → r ≡ ok a
  translated_returned (ok b) a h = h
  translated_returned (err e) a h = ground arith

  -- A search that returns gives no candidates where there is no collection, and otherwise the
  -- points of the response in their order, ranked from 1 on: no rank is refused.
  pub search_returned :
      (vector : List F) (limit : ℤ) (filters : SearchFilters) (index : V)
      (candidates : List (RetrievalCandidate F))
      → search client vector limit filters index ≡ ok candidates
      → ((client.collection_exists index ≡ ok false) × (candidates ≡ []))
        ⊎ ((points : List (ℕ × F)) × (client.query_points vector
                (qdrant_filter client filters)
                limit
                index
              ≡ ok points)
            × AreNumberedFrom 1 points candidates)
  unfolding search
  search_returned vector limit filters index candidates h =
      let asked = client.query_points vector (qdrant_filter client filters) limit index in
      elim (Result-cases (translated (client.collection_exists index))) [
        | inr (e, f) ↦ ground arith
        | inl (false, f) ↦ inl (translated_returned _ false f, ground arith)
        | inl (true, f) ↦ elim (Result-cases (translated asked)) [
          | inr (e, g) ↦ ground arith
          | inl (points, g) ↦
              let (made, e, are) = numbered_total 1 points (omega arith) in
              let same : made ≡ candidates = ground arith in
              inr (
                points,
                translated_returned asked points g,
                subst (AreNumberedFrom 1 points) same are,
              )
        ]
      ]

  points_of_all :
      (document : Document) (chunks : List Chunk) (vectors : List (List F))
      → length chunks ≡ length vectors
      → (map (λ q. q.id) (points_of client document chunks vectors) ≡ map (λ c. c.id) chunks)
        × (map (λ q. q.vector) (points_of client document chunks vectors) ≡ vectors)
  unfolding points_of point_of
  points_of_all document [] [] h = (refl, refl)
  points_of_all document [] (v ∷ vectors) h = ground arith
  points_of_all document (c ∷ chunks) [] h = ground arith
  points_of_all document (c ∷ chunks) (v ∷ vectors) h =
      let (ids, same) = points_of_all document chunks vectors (ground arith) in
      (ap (λ l. c.id ∷ l) ids, ap (λ l. v ∷ l) same)

  -- The vectors that the embedding provider returns for the texts of chunks are accepted by the
  -- index: the points that the client gets have the ids of the chunks and those vectors, each of
  -- the configured dimensions.
  pub upsert_embedded :
      (embed : List Text → Result (List (List F))) (dimensions : ℕ) (document : Document)
      (chunks : List Chunk) (vectors : List (List F)) (index : V)
      → embed_documents embed dimensions (map (λ c. c.text) chunks) ≡ ok vectors
      → (points : List (Point F)) × (upsert client document chunks vectors index
          ≡ translating (client.upsert points index))
        × (map (λ q. q.id) points ≡ map (λ c. c.id) chunks)
        × (map (λ q. q.vector) points ≡ vectors)
        × All (λ v. length v ≡ dimensions) vectors
  unfolding upsert
  upsert_embedded embed dimensions document chunks vectors index h =
      elim (embed_documents_outcomes embed dimensions (map (λ c. c.text) chunks)) [
        | inr e ↦ ground arith
        | inl (made, e, count, sized) ↦
            let same : made ≡ vectors = ground arith in
            let even : length chunks ≡ length vectors =
              sym (length-map (λ c. c.text) chunks) ∙ sym count ∙ ap length same in
            let (ids, vs) = points_of_all document chunks vectors even in
            (
              points_of client document chunks vectors,
              ground arith,
              ids,
              vs,
              subst (All (λ v. length v ≡ dimensions)) same sized,
            )
      ]
