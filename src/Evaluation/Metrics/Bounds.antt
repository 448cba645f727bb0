-- ===== src/Evaluation/Metrics/Bounds.antt =====
-- The bounds of the recall and of the reciprocal rank.
use enterprise_knowledge_sea.Common.{
  ℕ, ◌∙◌, suc, ◌≤◌, ◌≡◌, sym, ap, ◌⊎◌, inl, inr, Bool-cases, List, [], map, length, take, ℤ, pos,
  pos_part, ltb_ℤ, arith, All, length-map, length-take,
}
use enterprise_knowledge_sea.Errors.{ok, Result-cases}
use enterprise_knowledge_sea.Evaluation.Metrics.{
  RelevantLocation, relevant_post_init, RankedLocation, EvaluationMetrics, MetricFloats, Key, key,
  relevance_by_location, retrieved_relevances, count_found, first_relevant, retrieved_keys,
  discounted_gain, reciprocal_of, recall_of, evaluate_ranking, sort_descending,
}
use enterprise_knowledge_sea.Evaluation.Metrics.Counts.{
  count_found_bounded, retrieved_relevances-AreDistinct,
}
use enterprise_knowledge_sea.Evaluation.Metrics.Found.{
  count_positive, matches, IsFirstFound, IsFirst-found, relevance_by_location-IsPositive,
  count_found-retrieved_relevances, count_found-matches, length-retrieved_relevances,
  count_positive_bounded, first_relevant-cases, nothing_found,
}

evaluate_ranking_fields :
    {F : Type 0} (f : MetricFloats F) (ranked : List RankedLocation)
    (relevant : List RelevantLocation) (limit : ℤ) (metrics : EvaluationMetrics F)
    → evaluate_ranking f ranked relevant limit ≡ ok metrics
    → let items = relevance_by_location relevant [] in
      let retrieved = retrieved_relevances items [] (retrieved_keys ranked limit) in
      (metrics.recall_at_k ≡ recall_of f (count_found items retrieved.1) (length items))
      × (metrics.reciprocal_rank ≡ reciprocal_of f (first_relevant 1 retrieved.0))
unfolding evaluate_ranking
evaluate_ranking_fields f ranked relevant limit metrics h =
    let items = relevance_by_location relevant [] in
    let retrieved = retrieved_relevances items [] (retrieved_keys ranked limit) in
    elim (Bool-cases (ltb_ℤ limit (pos 1))) [
      | inl small ↦ (ground arith, ground arith)
      | inr e ↦ elim (Result-cases (discounted_gain f retrieved.0)) [
        | inr (x, d) ↦ (ground arith, ground arith)
        | inl (dcg, d) ↦
            elim (Result-cases (
              discounted_gain f (take (pos_part limit) (sort_descending (map (λ i. i.1) items))))) [
                | inr (x, g) ↦ (ground arith, ground arith)
                | inl (ideal, g) ↦ (ground arith, ground arith)
              ]
      ]
    ]

length-retrieved_keys :
    (ranked : List RankedLocation) (limit : ℤ)
    → length (retrieved_keys ranked limit) ≤ pos_part limit
length-retrieved_keys ranked limit = omega (
  arith,
  length-map (λ l. key l.filename l.section_path l.page_number) (take (pos_part limit) ranked),
  length-take (pos_part limit) ranked,
)

found_positive :
    (relevant : List RelevantLocation) (keys : List Key)
    → All (λ l. relevant_post_init l ≡ ok l) relevant
    → let retrieved = retrieved_relevances (relevance_by_location relevant []) [] keys in
      count_found (relevance_by_location relevant []) retrieved.1 ≡ count_positive retrieved.0
unfolding count_found
found_positive relevant keys valid = omega (
  arith,
  count_found-retrieved_relevances (relevance_by_location relevant []) [] keys
      (relevance_by_location-IsPositive relevant [] valid tt),
)

relevances_bounded :
    (items : List (Key × ℤ)) (ranked : List RankedLocation) (limit : ℤ)
    → length (retrieved_relevances items [] (retrieved_keys ranked limit)).0 ≤ pos_part limit
relevances_bounded items ranked limit = omega (
  arith,
  length-retrieved_relevances items [] (retrieved_keys ranked limit),
  length-retrieved_keys ranked limit,
)

-- For valid relevant locations, an evaluation that returns has the recall of the number of its
-- retrieved keys that are relevant and not repeated, which is at most the number of relevant keys
-- and at most the limit. Where that is zero its reciprocal rank is zero; otherwise it is that of
-- the first retrieved key that is relevant, at most the limit.
pub evaluate_ranking_returned :
    {F : Type 0} (f : MetricFloats F) (ranked : List RankedLocation)
    (relevant : List RelevantLocation) (limit : ℤ) (metrics : EvaluationMetrics F)
    → All (λ l. relevant_post_init l ≡ ok l) relevant
    → evaluate_ranking f ranked relevant limit ≡ ok metrics
    → let items = relevance_by_location relevant [] in
      let found = matches items [] (retrieved_keys ranked limit) in
      (metrics.recall_at_k ≡ recall_of f found (length items))
      × (found ≤ length items)
      × (found ≤ pos_part limit)
      × (((found ≡ 0) × (metrics.reciprocal_rank ≡ f.zero_float))
          ⊎ ((n : ℕ) × (metrics.reciprocal_rank ≡ f.reciprocal (suc n))
              × (1 ≤ found)
              × (suc n ≤ pos_part limit)
              × IsFirstFound items n (retrieved_keys ranked limit)))
evaluate_ranking_returned f ranked relevant limit metrics valid h =
    let items = relevance_by_location relevant [] in
    let keys = retrieved_keys ranked limit in
    let relevances = (retrieved_relevances items [] keys).0 in
    let seen = (retrieved_relevances items [] keys).1 in
    let all = relevance_by_location-IsPositive relevant [] valid tt in
    let bounded =
      count_found_bounded items seen (retrieved_relevances-AreDistinct items [] keys tt) in
    let fields = evaluate_ranking_fields f ranked relevant limit metrics h in
    let within = relevances_bounded items ranked limit in
    let same = found_positive relevant keys valid in
    let counted : count_found items seen ≡ matches items [] keys =
      omega (arith, count_found-matches items [] keys, nothing_found items) in
    (
      fields.0 ∙ ap (λ n. recall_of f n (length items)) counted,
      omega (arith, bounded, counted),
      omega (arith, same, counted, count_positive_bounded relevances, within),
      elim (first_relevant-cases 1 relevances) [
        | inl (none_first, nothing) ↦
            inl (sym counted ∙ same ∙ nothing, fields.1 ∙ ap (reciprocal_of f) none_first)
        | inr (rank, first, some_found, start, end, n, at, is) ↦
            let next : rank ≡ suc n = omega (arith, at) in
            inr (
              n,
              fields.1 ∙ ap (reciprocal_of f) first ∙ ap f.reciprocal next,
              omega (arith, same, counted, some_found),
              omega (arith, end, within, next),
              IsFirst-found items n [] keys all (nothing_found items) is,
            )
      ],
    )
