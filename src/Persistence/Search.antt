-- ===== src/Persistence/Search.antt =====
-- class PostgresSearchRepository of knowledge_search/persistence/search.py and the revision provider
-- of revision.py. The two statements, which PostgreSQL runs, are parameters.
use enterprise_knowledge_sea.Common.{
  ℕ, ◌≡◌, refl, Option, none, some, Text, List, [], ◌∷◌, ◌==◌, if◌then◌else◌, ℤ, arith,
  Option-cases, inl, inr, Among, subst, ap, sym, ◌∙◌,
}
use enterprise_knowledge_sea.Status.{media_type_of_value}
use enterprise_knowledge_sea.Errors.{Result, ok, ◌>>=◌, Result-cases, ok-injective}
use enterprise_knowledge_sea.Domain.Locator
use enterprise_knowledge_sea.Persistence.Records.{ChunkRecord, DocumentRecord, or_value_error}
use enterprise_knowledge_sea.Persistence.Session.{Database, Tx, transaction}
use enterprise_knowledge_sea.Persistence.Repositories.{current_revision}
use enterprise_knowledge_sea.Retrieval.Models.{RetrievalCandidate, SearchFilters, SearchableChunk}
use enterprise_knowledge_sea.Retrieval.Candidates.{numbered}

-- The rows of the two statements: the ids and ranks of the chunks of ready documents that match a
-- query, best first; and the rows of chunks and their ready documents.
pub record Statements (F S : Type 0) : Type 0 where
  pub matching : Text → ℤ → SearchFilters → Tx S (List (ℕ × F))
  pub with_documents : List ℕ → Tx S (List (ChunkRecord × DocumentRecord))

-- the chunk of a row
unfoldable pub searchable_chunk : ChunkRecord × DocumentRecord → Result SearchableChunk
searchable_chunk (chunk, document) = do
  media_type ← or_value_error (media_type_of_value document.media_type)
  locator ← Locator.post_init (record {
    section_path = chunk.section_path;
    page_number = chunk.page_number;
    char_start = chunk.char_start;
    char_end = chunk.char_end;
  })
  ok (record {
    id = chunk.id;
    document_id = chunk.document_id;
    text = chunk.text;
    original_filename = document.original_filename;
    media_type = media_type;
    locator = locator;
  })

-- a dictionary with a chunk under an id that it does not have
abbrev pub with_chunk :
    ℕ → SearchableChunk → (ℕ → Option SearchableChunk) → ℕ → Option SearchableChunk
with_chunk key made others id = elim (others id) [
  | some later ↦ some later
  | none ↦ if key == id then some made else none
]

-- the dictionary of the rows, in which a later row of an id takes the place of an earlier one
unfoldable pub chunk_dictionary :
    List (ChunkRecord × DocumentRecord) → Result (ℕ → Option SearchableChunk)
chunk_dictionary [] = ok (λ id. none)
chunk_dictionary ((chunk, document) ∷ rows) = do
  made ← searchable_chunk (chunk, document)
  others ← chunk_dictionary rows
  ok (with_chunk chunk.id made others)

module _ {F S : Type 0} (db : Database S) (statements : Statements F S) where
  -- `keyword_candidates`
  unfoldable pub keyword_candidates :
      Text → ℤ → SearchFilters → S → Result (List (RetrievalCandidate F)) × S
  keyword_candidates query limit filters s =
      let (rows, t) = transaction db (statements.matching query limit filters) s in
      (rows >>= numbered 1, t)

  -- `load_chunks`
  unfoldable pub load_chunks : List ℕ → S → Result (ℕ → Option SearchableChunk) × S
  load_chunks [] s = (ok (λ id. none), s)
  load_chunks (id ∷ ids) s =
      let (rows, t) = transaction db (statements.with_documents (id ∷ ids)) s in
      (rows >>= chunk_dictionary, t)

-- `PostgresCorpusRevisionProvider.current`
unfoldable pub current : {S : Type 0} → Database S → S → Result ℕ × S
current db s = transaction db (current_revision db) s

-- A chunk is that of a row: its text, its document and where it stands in it.
pub record IsOf (row : ChunkRecord × DocumentRecord) (c : SearchableChunk) : Type 0 where
  pub id : c.id ≡ row.0.id
  pub document_id : c.document_id ≡ row.0.document_id
  pub text : c.text ≡ row.0.text
  pub filename : c.original_filename ≡ row.1.original_filename
  pub media_type : media_type_of_value row.1.media_type ≡ some c.media_type
  pub locator : Locator.IsValid c.locator

searchable_chunk-IsOf :
    (row : ChunkRecord × DocumentRecord) (c : SearchableChunk)
    → searchable_chunk row ≡ ok c
    → IsOf row c
unfolding searchable_chunk
searchable_chunk-IsOf (chunk, document) c h =
    elim (Option-cases (media_type_of_value document.media_type)) [
      | inl e ↦ ground arith
      | inr (t, e) ↦
          let read : Locator.SourceLocator = record {
            section_path = chunk.section_path;
            page_number = chunk.page_number;
            char_start = chunk.char_start;
            char_end = chunk.char_end;
          } in
          elim (Result-cases (Locator.post_init read)) [
            | inr (x, g) ↦ ground arith
            | inl (l, g) ↦
                let (valid, same) = Locator.IsValid-post_init read g in
                record {
                  id = ground arith;
                  document_id = ground arith;
                  text = ground arith;
                  filename = ground arith;
                  media_type = ground arith;
                  locator = subst Locator.IsValid (sym same ∙ ground arith) valid;
                }
          ]
    ]

-- Whatever the rows, an id in the dictionary has the chunk of one of them, with that id.
pub chunk_dictionary-IsOf :
    (rows : List (ChunkRecord × DocumentRecord)) (chunks : ℕ → Option SearchableChunk) (id : ℕ)
    (c : SearchableChunk)
    → chunk_dictionary rows ≡ ok chunks
    → chunks id ≡ some c
    → (row : ChunkRecord × DocumentRecord) × Among row rows × IsOf row c × (c.id ≡ id)
unfolding chunk_dictionary
chunk_dictionary-IsOf [] chunks id c h e =
    let nothing : none ≡ chunks id = ap (λ f. f id) (ok-injective h) in ground arith
chunk_dictionary-IsOf ((chunk, document) ∷ rows) chunks id c h e =
    elim (Result-cases (searchable_chunk (chunk, document))) [
      | inr (x, f) ↦ ground arith
      | inl (made, f) ↦ elim (Result-cases (chunk_dictionary rows)) [
        | inr (x, g) ↦ ground arith
        | inl (others, g) ↦
            let all : ok (with_chunk chunk.id made others) ≡ ok chunks = ground arith in
            let here : with_chunk chunk.id made others id ≡ some c =
              ap (λ f. f id) (ok-injective all) ∙ e in
            elim (Option-cases (others id)) [
              | inr (later, k) ↦
                  let (row, m, of, same) =
                    chunk_dictionary-IsOf rows others id c g (ground arith) in
                  (row, inr m, of, same)
              | inl k ↦
                  let mine : made ≡ c = ground arith in
                  let of = searchable_chunk-IsOf (chunk, document) c (f ∙ ap ok mine) in
                  ((chunk, document), inl refl, of, of.id ∙ ground arith)
            ]
      ]
    ]
