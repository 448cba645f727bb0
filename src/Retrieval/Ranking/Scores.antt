-- ===== src/Retrieval/Ranking/Scores.antt =====
-- The dictionary of scores holds, for each chunk that a list names, the sum of its contributions.
use enterprise_knowledge_sea.Common.{
  ℕ, ◌≡◌, refl, Option, none, some, List, [], ◌∷◌, ◌==◌, if◌then◌else◌, arith, ℤ, ◌+ℤ◌, ◌∙◌, ap,
}
use enterprise_knowledge_sea.Retrieval.Models.{Floats, RetrievalCandidate}
use enterprise_knowledge_sea.Retrieval.Ranking.{add_score, add_scores}

-- `scores.get(id)`
abbrev pub score_of : {F : Type 0} → ℕ → List (ℕ × F) → Option F
score_of id [] = none
score_of id ((k, score) ∷ more) =
    let rest = score_of id more in if k == id then some score else rest

module _ {F : Type 0} (f : Floats F) where
  -- one more contribution to a sum that may not have begun
  abbrev pub plus : Option F → F → F
  plus none amount = f.add f.zero amount
  plus (some score) amount = f.add score amount

  -- The sum of a chunk's contributions of a list, after those that came before.
  abbrev pub total : ℤ → ℕ → List (RetrievalCandidate F) → Option F → Option F
  total rrf_k id [] before = before
  total rrf_k id (c ∷ cs) before =
      total rrf_k id cs
        (if c.chunk_id == id then some (plus before (f.reciprocal (rrf_k +ℤ c.rank))) else before)

  score_of-add_score :
      (id k : ℕ) (amount : F) (scores : List (ℕ × F))
      → score_of id (add_score f k amount scores)
        ≡ (if k == id then some (plus (score_of id scores) amount) else score_of id scores)
  unfolding add_score
  score_of-add_score id k amount [] = ground arith
  score_of-add_score id k amount ((l, score) ∷ more) =
      ground (arith, score_of-add_score id k amount more)

  score_of-add_scores :
      (rrf_k : ℤ) (id : ℕ) (cs : List (RetrievalCandidate F)) (scores : List (ℕ × F))
      → score_of id (add_scores f rrf_k cs scores) ≡ total rrf_k id cs (score_of id scores)
  unfolding add_scores
  score_of-add_scores rrf_k id [] scores = refl
  score_of-add_scores rrf_k id (c ∷ cs) scores =
      score_of-add_scores rrf_k id cs
        (add_score f c.chunk_id (f.reciprocal (rrf_k +ℤ c.rank)) scores)
      ∙ ap (total rrf_k id cs)
          (score_of-add_score id c.chunk_id (f.reciprocal (rrf_k +ℤ c.rank)) scores)

  -- The fused score of a chunk is the sum of 1 / (rrf_k + rank) over its occurrences in the
  -- keyword list and then in the vector list, added in that order; a chunk in neither has none.
  pub fused_scores :
      (rrf_k : ℤ) (id : ℕ) (keyword vector : List (RetrievalCandidate F))
      → score_of id (add_scores f rrf_k vector (add_scores f rrf_k keyword []))
        ≡ total rrf_k id vector (total rrf_k id keyword none)
  fused_scores rrf_k id keyword vector =
      score_of-add_scores rrf_k id vector (add_scores f rrf_k keyword [])
      ∙ ap (total rrf_k id vector) (score_of-add_scores rrf_k id keyword [])
