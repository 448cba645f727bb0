-- ===== src/Retrieval/Ranking.antt =====
-- knowledge_search/retrieval/ranking.py. A dictionary is the list of its items in the order of
-- insertion. `str` of a UUID has a fixed width, so UUIDs compare by their text as numbers do.
pub mod Scores
pub mod Sorted
use enterprise_knowledge_sea.Common.{
  ℕ, Bool, true, false, ◌&&◌, ◌||◌, Option, none, some, List, [], ◌∷◌, map, ◌==◌, ltb,
  if◌then◌else◌, ℤ, pos, ltb_ℤ, ◌+ℤ◌,
}
use enterprise_knowledge_sea.Errors.{Result, ok, raise_if, ◌>>◌, value_error}
use enterprise_knowledge_sea.Retrieval.Models.{Floats, RetrievalCandidate, FusedCandidate}

-- `ranks.get(chunk_id)` of `{candidate.chunk_id: candidate.rank for candidate in candidates}`: the
-- last candidate with the key decides
unfoldable pub rank_of : {F : Type 0} → ℕ → List (RetrievalCandidate F) → Option ℤ
rank_of id [] = none
rank_of id (c ∷ cs) =
    let later = rank_of id cs in
    elim later [ some r ↦ some r | none ↦ if c.chunk_id == id then some c.rank else none ]

module _ {F : Type 0} (f : Floats F) where
  -- `scores[chunk_id] += amount`
  unfoldable pub add_score : ℕ → F → List (ℕ × F) → List (ℕ × F)
  add_score id amount [] = (id, f.add f.zero amount) ∷ []
  add_score id amount ((k, score) ∷ more) =
      let rest = add_score id amount more in
      if k == id then (k, f.add score amount) ∷ more else (k, score) ∷ rest

  -- the loop over one list of candidates
  unfoldable pub add_scores : ℤ → List (RetrievalCandidate F) → List (ℕ × F) → List (ℕ × F)
  add_scores rrf_k [] scores = scores
  add_scores rrf_k (c ∷ cs) scores =
      add_scores rrf_k cs (add_score c.chunk_id (f.reciprocal (rrf_k +ℤ c.rank)) scores)

  -- `(-a.score, str(a.chunk_id)) < (-b.score, str(b.chunk_id))`
  unfoldable pub comes_before : FusedCandidate F → FusedCandidate F → Bool
  comes_before a b =
      if f.same a.score b.score then ltb a.chunk_id b.chunk_id else f.greater a.score b.score

  -- `sorted` is stable: a candidate goes before the ones that are not before it.
  unfoldable pub insert_sorted :
      FusedCandidate F → List (FusedCandidate F) → List (FusedCandidate F)
  insert_sorted a [] = a ∷ []
  insert_sorted a (b ∷ bs) =
      let rest = insert_sorted a bs in if comes_before b a then b ∷ rest else a ∷ b ∷ bs

  unfoldable pub sort_candidates : List (FusedCandidate F) → List (FusedCandidate F)
  sort_candidates [] = []
  sort_candidates (a ∷ rest) = insert_sorted a (sort_candidates rest)

  -- one item of the generator expression
  abbrev pub fused :
      List (RetrievalCandidate F) → List (RetrievalCandidate F) → ℕ × F → FusedCandidate F
  fused keyword vector (id, score) = record {
    chunk_id = id;
    score = score;
    keyword_rank = rank_of id keyword;
    vector_rank = rank_of id vector;
  }

  unfoldable pub reciprocal_rank_fusion :
      List (RetrievalCandidate F)
      → List (RetrievalCandidate F)
      → ℤ
      → Result (List (FusedCandidate F))
  reciprocal_rank_fusion keyword vector rrf_k =
      raise_if (ltb_ℤ rrf_k (pos 1)) value_error
      >> ok (
          sort_candidates
            (map (fused keyword vector) (add_scores rrf_k vector (add_scores rrf_k keyword []))))
