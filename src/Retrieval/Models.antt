-- ===== src/Retrieval/Models.antt =====
-- The values of knowledge_search/retrieval/models.py. A score is a float of Python: its type and
-- its arithmetic are a parameter.
use enterprise_knowledge_sea.Common.{ℕ, Bool, Option, Text, List, ℤ, pos, ltb_ℤ}
use enterprise_knowledge_sea.Status.{DocumentMediaType}
use enterprise_knowledge_sea.Errors.{Result, ok, raise_if, ◌>>◌, value_error}
use enterprise_knowledge_sea.Domain.Chunk.{Citation}
use enterprise_knowledge_sea.Domain.Locator.{SourceLocator}

-- What the code uses of floats: 0.0, the sum, 1.0 / n, and the two comparisons.
pub record Floats (F : Type 0) : Type 0 where
  pub zero : F
  pub add : F → F → F
  pub reciprocal : ℤ → F
  pub greater : F → F → Bool
  pub same : F → F → Bool

pub data SearchMode : Type 0 where
  keyword vector hybrid : SearchMode

pub record SearchFilters : Type 0 where
  pub document_ids : List ℕ
  pub media_types : List DocumentMediaType

pub record RetrievalCandidate (F : Type 0) : Type 0 where
  pub chunk_id : ℕ
  pub rank : ℤ
  pub score : F

-- `__post_init__`
unfoldable pub candidate_post_init :
    {F : Type 0} → RetrievalCandidate F → Result (RetrievalCandidate F)
candidate_post_init c = raise_if (ltb_ℤ c.rank (pos 1)) value_error >> ok c

pub record FusedCandidate (F : Type 0) : Type 0 where
  pub chunk_id : ℕ
  pub score : F
  pub keyword_rank : Option ℤ
  pub vector_rank : Option ℤ

pub record SearchableChunk : Type 0 where
  pub id : ℕ
  pub document_id : ℕ
  pub text : Text
  pub original_filename : Text
  pub media_type : DocumentMediaType
  pub locator : SourceLocator

pub record SearchResult (F : Type 0) : Type 0 where
  pub score : F
  pub keyword_rank : Option ℤ
  pub vector_rank : Option ℤ
  pub media_type : DocumentMediaType
  pub citation : Citation
