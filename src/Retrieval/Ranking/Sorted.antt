-- ===== src/Retrieval/Ranking/Sorted.antt =====
-- The fused list is in order and has the candidates of the dictionary, each as often.
use enterprise_knowledge_sea.Common.{
  ℕ, ◌≤◌, suc, Bool, true, false, ◌≡◌, refl, inl, inr, List, [], ◌∷◌, map, if◌then◌else◌, arith, ℤ,
  pos, ltb_ℤ, Bool-cases,
}
use enterprise_knowledge_sea.Errors.{ok}
use enterprise_knowledge_sea.Retrieval.Models.{Floats, RetrievalCandidate, FusedCandidate}
use enterprise_knowledge_sea.Retrieval.Ranking.{
  comes_before, insert_sorted, sort_candidates, fused, add_scores, reciprocal_rank_fusion,
}

-- What is relied on of the comparisons of floats that are no NaN.
pub record FloatsLaws {F : Type 0} (f : Floats F) : Type 0 where
  pub same-sym : (a b : F) → f.same a b ≡ f.same b a
  pub same-not_greater : (a b : F) → f.same a b ≡ true → f.greater a b ≡ false
  pub greater-asym : (a b : F) → f.greater a b ≡ true → f.greater b a ≡ false

-- how many candidates of a list pass a test
abbrev pub count : {A : Type 0} → (A → Bool) → List A → ℕ
count p [] = 0
count p (a ∷ more) = let rest = count p more in if p a then suc rest else rest

module _ {F : Type 0} (f : Floats F) where
  abbrev AreSorted : List (FusedCandidate F) → Type 0
  AreSorted [] = Unit
  AreSorted (a ∷ []) = Unit
  AreSorted (a ∷ b ∷ more) = (comes_before f b a ≡ false) × AreSorted (b ∷ more)

  -- Of two candidates, the second has no greater score, and a lower id only with another score.
  pub record IsRanked (a b : FusedCandidate F) : Type 0 where
    pub scores : f.greater b.score a.score ≡ false
    pub ties : f.same b.score a.score ≡ true → a.chunk_id ≤ b.chunk_id

  -- Scores never ascend, and among the same scores the ids never descend.
  abbrev pub AreOrdered : List (FusedCandidate F) → Type 0
  AreOrdered [] = Unit
  AreOrdered (a ∷ []) = Unit
  AreOrdered (a ∷ b ∷ more) = IsRanked a b × AreOrdered (b ∷ more)

  count-insert_sorted :
      (p : FusedCandidate F → Bool) (a : FusedCandidate F) (more : List (FusedCandidate F))
      → count p (insert_sorted f a more) ≡ count p (a ∷ more)
  unfolding insert_sorted
  count-insert_sorted p a [] = refl
  count-insert_sorted p a (b ∷ more) = ground (arith, count-insert_sorted p a more)

  pub count-sort_candidates :
      (p : FusedCandidate F → Bool) (more : List (FusedCandidate F))
      → count p (sort_candidates f more) ≡ count p more
  unfolding sort_candidates
  count-sort_candidates p [] = refl
  count-sort_candidates p (a ∷ more) =
      ground (arith, count-insert_sorted p a (sort_candidates f more), count-sort_candidates p more)

  module _ (laws : FloatsLaws f) where
    comes_before-asym :
        (a b : FusedCandidate F) → comes_before f a b ≡ true → comes_before f b a ≡ false
    unfolding comes_before
    comes_before-asym a b h =
        ground (arith, laws.same-sym a.score b.score, laws.greater-asym a.score b.score)

    -- the insertion into a list of two or more, by its two tests
    insert_step :
        (a b c : FusedCandidate F) (more inserted : List (FusedCandidate F)) (x y : Bool)
        → comes_before f b a ≡ x
        → AreSorted (b ∷ c ∷ more)
        → AreSorted (if y then c ∷ inserted else a ∷ c ∷ more)
        → AreSorted (if x then b ∷ (if y then c ∷ inserted else a ∷ c ∷ more) else a ∷ b ∷ c ∷ more)
    insert_step a b c more inserted true true e o rest = (o.0, rest)
    insert_step a b c more inserted true false e o rest = (comes_before-asym b a e, rest)
    insert_step a b c more inserted false y e o rest = (e, o)

    insert_sorted-AreSorted :
        (a : FusedCandidate F) (more : List (FusedCandidate F))
        → AreSorted more
        → AreSorted (insert_sorted f a more)
    unfolding insert_sorted
    insert_sorted-AreSorted a [] o = tt
    insert_sorted-AreSorted a (b ∷ []) o = elim (Bool-cases (comes_before f b a)) [
      | inl e ↦ rw e (comes_before-asym b a e, tt)
      | inr e ↦ rw e (e, tt)
    ]
    insert_sorted-AreSorted a (b ∷ c ∷ more) o =
        insert_step a b c more (insert_sorted f a more) (comes_before f b a) (comes_before f c a)
          refl o (insert_sorted-AreSorted a (c ∷ more) o.1)

    pub sort_candidates-AreSorted :
        (more : List (FusedCandidate F)) → AreSorted (sort_candidates f more)
    unfolding sort_candidates
    sort_candidates-AreSorted [] = tt
    sort_candidates-AreSorted (a ∷ more) =
        insert_sorted-AreSorted a (sort_candidates f more) (sort_candidates-AreSorted more)

    order-IsRanked : (a b : FusedCandidate F) → comes_before f b a ≡ false → IsRanked a b
    unfolding comes_before
    order-IsRanked a b h = elim (Bool-cases (f.same b.score a.score)) [
      | inl e ↦ record {
        scores = laws.same-not_greater b.score a.score e;
        ties = λ _. ground arith;
      }
      | inr e ↦ record { scores = ground arith; ties = λ g. absurd (ground arith) }
    ]

    order-AreOrdered : (more : List (FusedCandidate F)) → AreSorted more → AreOrdered more
    order-AreOrdered [] o = tt
    order-AreOrdered (a ∷ []) o = tt
    order-AreOrdered (a ∷ b ∷ more) o = (order-IsRanked a b o.0, order-AreOrdered (b ∷ more) o.1)

    -- For comparisons of floats that obey the laws and an rrf_k of at least 1, the fusion returns a
    -- list whose scores never ascend, in which candidates of the same score stand in the order of
    -- their ids, and that holds, as often by any test, the candidates made of the items of the
    -- score dictionary.
    pub reciprocal_rank_fusion_total :
        (keyword vector : List (RetrievalCandidate F)) (rrf_k : ℤ)
        → ltb_ℤ rrf_k (pos 1) ≡ false
        → (ranked : List (FusedCandidate F)) × (reciprocal_rank_fusion f keyword vector rrf_k
            ≡ ok ranked)
          × AreOrdered ranked
          × ((p : FusedCandidate F → Bool)
              → count p ranked
                ≡ count p (
                    map
                      (fused f keyword vector)
                      (add_scores f rrf_k vector (add_scores f rrf_k keyword []))))
    unfolding reciprocal_rank_fusion
    reciprocal_rank_fusion_total keyword vector rrf_k h =
        let items =
          map (fused f keyword vector)
            (add_scores f rrf_k vector (add_scores f rrf_k keyword [])) in
        (
          sort_candidates f items,
          ground arith,
          order-AreOrdered (sort_candidates f items) (sort_candidates-AreSorted items),
          λ p. count-sort_candidates p items,
        )
