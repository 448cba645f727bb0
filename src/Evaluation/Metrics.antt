-- ===== src/Evaluation/Metrics.antt =====
-- knowledge_search/evaluation/metrics.py. A dictionary is the list of its items in the order of
-- insertion, a set the list of its elements, without repetition. Floats are a parameter.
pub mod Counts
pub mod Found
pub mod Bounds
use enterprise_knowledge_sea.Common.{
  ℕ, zero, suc, ◌+◌, Bool, true, false, ◌&&◌, ◌||◌, Option, none, some, Text, List, [], ◌∷◌, map,
  length, take, is_empty, text_eq, ◌==◌, ℤ, pos, negsuc, pos_part, ltb_ℤ, if◌then◌else◌,
}
use enterprise_knowledge_sea.Errors.{Result, ok, raise_if, ◌>>=◌, ◌>>◌, value_error}

pub record RelevantLocation : Type 0 where
  pub filename : Text
  pub section_path : List Text
  pub page_number : Option ℤ
  pub relevance : ℤ

-- `__post_init__`
unfoldable pub relevant_post_init : RelevantLocation → Result RelevantLocation
relevant_post_init l = do raise_if (ltb_ℤ l.relevance (pos 1)) value_error; ok l

pub record RankedLocation : Type 0 where
  pub filename : Text
  pub section_path : List Text
  pub page_number : Option ℤ

pub record EvaluationMetrics (F : Type 0) : Type 0 where
  pub recall_at_k : F
  pub reciprocal_rank : F
  pub ndcg_at_k : F

-- the floats: 0.0, sums, quotients of integers and of floats, 1.0 / n, and the quotient
-- (float(2**relevance) - 1.0) / log2(rank + 1), whose conversion overflows for large relevances
pub record MetricFloats (F : Type 0) : Type 0 where
  pub zero_float : F
  pub add : F → F → F
  pub divide : F → F → F
  pub is_zero : F → Bool
  pub ratio : ℕ → ℕ → F
  pub reciprocal : ℕ → F
  pub gain : ℤ → ℕ → Result F

-- what `_key` returns
abbrev pub Key : Type 0
Key = Text × List Text × Option ℤ

-- `_key`, of either kind of location
abbrev pub key : Text → List Text → Option ℤ → Key
key filename section_path page_number = (filename, section_path, page_number)

unfoldable pub path_eq : List Text → List Text → Bool
path_eq [] [] = true
path_eq (a ∷ s) (b ∷ t) = text_eq a b && path_eq s t
path_eq _ _ = false

unfoldable pub page_eq : Option ℤ → Option ℤ → Bool
page_eq none none = true
page_eq (some (pos m)) (some (pos n)) = m == n
page_eq (some (negsuc m)) (some (negsuc n)) = m == n
page_eq _ _ = false

-- equality of keys
unfoldable pub key_eq : Key → Key → Bool
key_eq (f, s, p) (g, t, q) = text_eq f g && path_eq s t && page_eq p q

-- `location in dictionary`
unfoldable pub has_key : Key → List (Key × ℤ) → Bool
has_key k [] = false
has_key k ((l, r) ∷ more) = key_eq k l || has_key k more

-- `dictionary.get(location, 0)`
unfoldable pub relevance_of : Key → List (Key × ℤ) → ℤ
relevance_of k [] = pos 0
relevance_of k ((l, r) ∷ more) = if key_eq k l then r else relevance_of k more

-- `dictionary[location] = relevance`
unfoldable pub set_relevance : Key → ℤ → List (Key × ℤ) → List (Key × ℤ)
set_relevance k r [] = (k, r) ∷ []
set_relevance k r ((l, s) ∷ more) =
    let rest = set_relevance k r more in if key_eq k l then (l, r) ∷ more else (l, s) ∷ rest

-- `relevance_by_location`, from the items that are there
unfoldable pub relevance_by_location : List RelevantLocation → List (Key × ℤ) → List (Key × ℤ)
relevance_by_location [] items = items
relevance_by_location (l ∷ relevant) items =
    relevance_by_location relevant
      (set_relevance (key l.filename l.section_path l.page_number) l.relevance items)

-- `location in seen`
unfoldable pub member : Key → List Key → Bool
member k [] = false
member k (l ∷ seen) = key_eq k l || member k seen

-- `seen.add(location)`
unfoldable pub add_seen : Key → List Key → List Key
add_seen k seen = if member k seen then seen else k ∷ seen

-- the loop over the retrieved keys: the relevances, and what was seen
unfoldable pub retrieved_relevances : List (Key × ℤ) → List Key → List Key → List ℤ × List Key
retrieved_relevances items seen [] = ([], seen)
retrieved_relevances items seen (k ∷ keys) =
    let (relevances, all_seen) = retrieved_relevances items (add_seen k seen) keys in
    ((if member k seen then pos 0 else relevance_of k items) ∷ relevances, all_seen)

-- `len(seen.intersection(relevance_by_location))`
unfoldable pub count_found : List (Key × ℤ) → List Key → ℕ
count_found items [] = 0
count_found items (k ∷ seen) = (if has_key k items then 1 else 0) + count_found items seen

-- `first_relevant`, from a rank on
unfoldable pub first_relevant : ℕ → List ℤ → Option ℕ
first_relevant rank [] = none
first_relevant rank (r ∷ relevances) =
    let later = first_relevant (suc rank) relevances in if ltb_ℤ (pos 0) r then some rank else later

-- `sorted(values, reverse=True)`
unfoldable pub insert_descending : ℤ → List ℤ → List ℤ
insert_descending r [] = r ∷ []
insert_descending r (s ∷ more) =
    let rest = insert_descending r more in if ltb_ℤ r s then s ∷ rest else r ∷ s ∷ more

unfoldable pub sort_descending : List ℤ → List ℤ
sort_descending [] = []
sort_descending (r ∷ more) = insert_descending r (sort_descending more)

-- `retrieved_keys`
abbrev pub retrieved_keys : List RankedLocation → ℤ → List Key
retrieved_keys ranked limit =
    map (λ l. key l.filename l.section_path l.page_number) (take (pos_part limit) ranked)

module _ {F : Type 0} (f : MetricFloats F) where
  -- the loop of `_discounted_gain`, from a rank and a sum on
  unfoldable pub discounted_gain_from : ℕ → F → List ℤ → Result F
  discounted_gain_from rank sum [] = ok sum
  discounted_gain_from rank sum (r ∷ relevances) = do
    term ← f.gain r rank
    discounted_gain_from (suc rank) (f.add sum term) relevances

  -- `_discounted_gain`
  unfoldable pub discounted_gain : List ℤ → Result F
  discounted_gain relevances = discounted_gain_from 1 f.zero_float relevances

  -- `1.0 / first_relevant if first_relevant is not None else 0.0`
  abbrev pub reciprocal_of : Option ℕ → F
  reciprocal_of none = f.zero_float
  reciprocal_of (some rank) = f.reciprocal rank

  -- `found / len(relevance_by_location) if relevance_by_location else 0.0`
  abbrev pub recall_of : ℕ → ℕ → F
  recall_of found zero = f.zero_float
  recall_of found (suc n) = f.ratio found (suc n)

  -- `evaluate_ranking`
  unfoldable pub evaluate_ranking :
      List RankedLocation → List RelevantLocation → ℤ → Result (EvaluationMetrics F)
  evaluate_ranking ranked relevant limit = do
    raise_if (ltb_ℤ limit (pos 1)) value_error
    let items = relevance_by_location relevant []
    let (relevances, seen) = retrieved_relevances items [] (retrieved_keys ranked limit)
    dcg ← discounted_gain relevances
    ideal_dcg ← discounted_gain (take (pos_part limit) (sort_descending (map (λ i. i.1) items)))
    ok (record {
      recall_at_k = recall_of (count_found items seen) (length items);
      reciprocal_rank = reciprocal_of (first_relevant 1 relevances);
      ndcg_at_k = if f.is_zero ideal_dcg then f.zero_float else f.divide dcg ideal_dcg;
    })
