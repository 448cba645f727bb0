-- ===== src/Retrieval/Candidates.antt =====
-- The comprehensions `[RetrievalCandidate(..., rank=rank) for rank, row in enumerate(rows, start=1)]`
-- of knowledge_search/persistence/search.py and providers/qdrant_index.py.
use enterprise_knowledge_sea.Common.{ℕ, suc, ◌≤◌, ◌≡◌, refl, List, [], ◌∷◌, pos, arith}
use enterprise_knowledge_sea.Errors.{Result, ok, ◌>>=◌}
use enterprise_knowledge_sea.Retrieval.Models.{RetrievalCandidate, candidate_post_init}

-- the candidates of rows, from a rank on
unfoldable pub numbered : {F : Type 0} → ℕ → List (ℕ × F) → Result (List (RetrievalCandidate F))
numbered rank [] = ok []
numbered rank ((id, score) ∷ rows) = do
  candidate ← candidate_post_init (record { chunk_id = id; rank = pos rank; score = score })
  candidates ← numbered (suc rank) rows
  ok (candidate ∷ candidates)

-- Candidates that are rows in their order, with the ranks from a number on.
abbrev pub AreNumberedFrom : {F : Type 0} → ℕ → List (ℕ × F) → List (RetrievalCandidate F) → Type 0
AreNumberedFrom rank [] [] = Unit
AreNumberedFrom rank ((id, score) ∷ rows) (c ∷ candidates) =
    (c.chunk_id ≡ id)
    × (c.score ≡ score)
    × (c.rank ≡ pos rank)
    × AreNumberedFrom (suc rank) rows candidates
AreNumberedFrom rank [] (c ∷ candidates) = ⊥
AreNumberedFrom rank (row ∷ rows) [] = ⊥

-- From a positive rank on, the candidates are made, one for each row.
pub numbered_total :
    {F : Type 0} (rank : ℕ) (rows : List (ℕ × F))
    → 1 ≤ rank
    → (candidates : List (RetrievalCandidate F)) × (numbered rank rows ≡ ok candidates)
      × AreNumberedFrom rank rows candidates
unfolding numbered candidate_post_init
numbered_total rank [] h = ([], refl, tt)
numbered_total rank ((id, score) ∷ rows) h =
    let (candidates, e, are) = numbered_total (suc rank) rows (omega (arith, h)) in
    (
      record { chunk_id = id; rank = pos rank; score = score } ∷ candidates,
      ground arith,
      (refl, refl, refl, are),
    )
