-- ===== src/Tests/Evaluation.antt =====
-- The evaluation of a ranking that repeats a location.
use enterprise_knowledge_sea.Common.{
  ℕ, suc, ◌≡◌, refl, ◌≤◌, ◌+◌, ◌*◌, ◌⊎◌, none, text_eq, some, codes, List, [], ◌∷◌, length, All,
  pos, pos_part, ◌==◌,
}
use enterprise_knowledge_sea.Errors.{ok}
use enterprise_knowledge_sea.Evaluation.Metrics.{
  RelevantLocation, relevant_post_init, RankedLocation, EvaluationMetrics, MetricFloats,
  relevance_by_location, relevance_of, set_relevance, member, add_seen, key_eq, path_eq, page_eq,
  has_key, retrieved_relevances, count_found, first_relevant, insert_descending, sort_descending,
  discounted_gain_from, discounted_gain, recall_of, retrieved_keys, evaluate_ranking,
}
use enterprise_knowledge_sea.Evaluation.Metrics.Bounds.{evaluate_ranking_returned}
use enterprise_knowledge_sea.Evaluation.Metrics.Found.{matches, IsFirstFound}

-- numbers in place of floats, a quotient as a pair of digits
abbrev digits : MetricFloats ℕ
digits = record {
  zero_float = 0;
  add = λ a b. a + b;
  divide = λ a b. 10 * a + b;
  is_zero = λ a. a == 0;
  ratio = λ a b. 10 * a + b;
  reciprocal = λ n. 10 + n;
  gain = λ relevance rank. ok (pos_part relevance);
}

abbrev first_page : RankedLocation
first_page = record { filename = codes "a"; section_path = []; page_number = some (pos 1) }

abbrev second_page : RankedLocation
second_page = record { filename = codes "a"; section_path = []; page_number = some (pos 2) }

abbrev wanted : List RelevantLocation
wanted =
    record {
      filename = codes "a";
      section_path = [];
      page_number = some (pos 2);
      relevance = pos 3;
    }
    ∷ record { filename = codes "b"; section_path = []; page_number = none; relevance = pos 1 }
    ∷ []

abbrev measured : EvaluationMetrics ℕ
measured = record { recall_at_k = 12; reciprocal_rank = 12; ndcg_at_k = 34 }

measured_run :
    evaluate_ranking digits (first_page ∷ second_page ∷ second_page ∷ []) wanted (pos 3)
    ≡ ok measured
unfolding evaluate_ranking relevance_by_location relevance_of set_relevance member add_seen key_eq
    path_eq page_eq has_key retrieved_relevances count_found first_relevant insert_descending
    sort_descending discounted_gain_from discounted_gain text_eq
measured_run = refl

wanted_valid : All (λ l. relevant_post_init l ≡ ok l) wanted
unfolding relevant_post_init
wanted_valid = (refl, (refl, tt))

evaluate_ranking_returned_example :
    let items = relevance_by_location wanted [] in
    let keys = retrieved_keys (first_page ∷ second_page ∷ second_page ∷ []) (pos 3) in
    let found = matches items [] keys in
    (measured.recall_at_k ≡ recall_of digits found (length items))
    × (found ≤ length items)
    × (found ≤ pos_part (pos 3))
    × (((found ≡ 0) × (measured.reciprocal_rank ≡ digits.zero_float))
        ⊎ ((n : ℕ) × (measured.reciprocal_rank ≡ digits.reciprocal (suc n))
            × (1 ≤ found)
            × (suc n ≤ pos_part (pos 3))
            × IsFirstFound items n keys))
evaluate_ranking_returned_example =
    evaluate_ranking_returned digits (first_page ∷ second_page ∷ second_page ∷ []) wanted (pos 3)
      measured wanted_valid measured_run
