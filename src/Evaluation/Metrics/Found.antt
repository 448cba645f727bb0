-- ===== src/Evaluation/Metrics/Found.antt =====
-- The retrieved keys that are relevant, and the rank of the first one.
use enterprise_knowledge_sea.Common.{
  ℕ, ◌∙◌, zero, suc, ◌+◌, ◌≤◌, ◌≡◌, refl, sym, ap, subst, ◌⊎◌, inl, inr, true, false, Bool-cases,
  none, some, List, [], ◌∷◌, length, ℤ, pos, ltb_ℤ, if◌then◌else◌, arith, All,
}
use enterprise_knowledge_sea.Errors.{ok}
use enterprise_knowledge_sea.Evaluation.Metrics.{
  RelevantLocation, relevant_post_init, Key, key, key_eq, has_key, relevance_of, set_relevance,
  relevance_by_location, member, add_seen, retrieved_relevances, count_found, first_relevant,
}
use enterprise_knowledge_sea.Evaluation.Metrics.Counts.{key_eq_sound}

abbrev pub IsPositive : Key × ℤ → Type 0
IsPositive item = ltb_ℤ (pos 0) item.1 ≡ true

relevant_positive :
    (l : RelevantLocation) → relevant_post_init l ≡ ok l → ltb_ℤ (pos 0) l.relevance ≡ true
unfolding relevant_post_init
relevant_positive l h = elim (Bool-cases (ltb_ℤ l.relevance (pos 1))) [
  | inl small ↦ ground arith
  | inr large ↦ ground arith
]

set_relevance-IsPositive :
    (k : Key) (r : ℤ) (items : List (Key × ℤ))
    → ltb_ℤ (pos 0) r ≡ true
    → All IsPositive items
    → All IsPositive (set_relevance k r items)
unfolding set_relevance
set_relevance-IsPositive k r [] h all = (h, tt)
set_relevance-IsPositive k r ((l, s) ∷ items) h all = elim (Bool-cases (key_eq k l)) [
  | inl e ↦
      let same : set_relevance k r ((l, s) ∷ items) ≡ (l, r) ∷ items = ground arith in
      subst (All IsPositive) (sym same) (h, all.1)
  | inr e ↦
      let same : set_relevance k r ((l, s) ∷ items) ≡ (l, s) ∷ set_relevance k r items =
        ground arith in
      subst (All IsPositive) (sym same) (all.0, set_relevance-IsPositive k r items h all.1)
]

pub relevance_by_location-IsPositive :
    (relevant : List RelevantLocation) (items : List (Key × ℤ))
    → All (λ l. relevant_post_init l ≡ ok l) relevant
    → All IsPositive items
    → All IsPositive (relevance_by_location relevant items)
unfolding relevance_by_location
relevance_by_location-IsPositive [] items valid all = all
relevance_by_location-IsPositive (l ∷ relevant) items valid all =
    let k = key l.filename l.section_path l.page_number in
    relevance_by_location-IsPositive relevant (set_relevance k l.relevance items) valid.1
      (set_relevance-IsPositive k l.relevance items (relevant_positive l valid.0) all)

relevance_of_positive :
    (k : Key) (items : List (Key × ℤ))
    → All IsPositive items
    → ltb_ℤ (pos 0) (relevance_of k items) ≡ has_key k items
unfolding relevance_of has_key
relevance_of_positive k [] all = refl
relevance_of_positive k ((l, r) ∷ items) all =
    let positive : ltb_ℤ (pos 0) r ≡ true = all.0 in
    let rest = relevance_of_positive k items all.1 in
    elim (Bool-cases (key_eq k l)) [ inl e ↦ ground arith | inr e ↦ ground arith ]

-- how many of the relevances are positive
unfoldable pub count_positive : List ℤ → ℕ
count_positive [] = 0
count_positive (r ∷ relevances) = (if ltb_ℤ (pos 0) r then 1 else 0) + count_positive relevances

count_found-add_seen :
    (items : List (Key × ℤ)) (k : Key) (seen : List Key)
    → count_found items (add_seen k seen)
      ≡ (if member k seen then 0 else (if has_key k items then 1 else 0)) + count_found items seen
unfolding count_found add_seen
count_found-add_seen items k seen = elim (Bool-cases (member k seen)) [
  | inl h ↦ ground arith
  | inr h ↦ ground arith
]

pub count_found-retrieved_relevances :
    (items : List (Key × ℤ)) (seen keys : List Key)
    → All IsPositive items
    → count_found items (retrieved_relevances items seen keys).1
      ≡ count_found items seen + count_positive (retrieved_relevances items seen keys).0
unfolding retrieved_relevances count_positive
count_found-retrieved_relevances items seen [] all = omega arith
count_found-retrieved_relevances items seen (k ∷ keys) all =
    let rest = count_found-retrieved_relevances items (add_seen k seen) keys all in
    let positive = relevance_of_positive k items all in
    elim (Bool-cases (member k seen)) [
      | inl h ↦ ground (arith, count_found-add_seen items k seen)
      | inr h ↦ elim (Bool-cases (has_key k items)) [
        | inl there ↦ ground (arith, count_found-add_seen items k seen)
        | inr missing ↦ ground (arith, count_found-add_seen items k seen)
      ]
    ]

-- How many keys of a list are relevant and neither seen nor repeated.
unfoldable pub matches : List (Key × ℤ) → List Key → List Key → ℕ
matches items seen [] = 0
matches items seen (k ∷ keys) =
    (if member k seen then 0 else (if has_key k items then 1 else 0))
    + matches items (add_seen k seen) keys

pub count_found-matches :
    (items : List (Key × ℤ)) (seen keys : List Key)
    → count_found items (retrieved_relevances items seen keys).1
      ≡ count_found items seen + matches items seen keys
unfolding retrieved_relevances matches
count_found-matches items seen [] = omega arith
count_found-matches items seen (k ∷ keys) =
    omega
      (arith, count_found-matches items (add_seen k seen) keys, count_found-add_seen items k seen)

pub length-retrieved_relevances :
    (items : List (Key × ℤ)) (seen keys : List Key)
    → length (retrieved_relevances items seen keys).0 ≡ length keys
unfolding retrieved_relevances
length-retrieved_relevances items seen [] = refl
length-retrieved_relevances items seen (k ∷ keys) =
    ap suc (length-retrieved_relevances items (add_seen k seen) keys)

pub count_positive_bounded : (relevances : List ℤ) → count_positive relevances ≤ length relevances
unfolding count_positive
count_positive_bounded [] = omega arith
count_positive_bounded (r ∷ relevances) = ground (arith, count_positive_bounded relevances)

-- The rank of a relevance among others: the relevances before it are not positive, and it is.
abbrev pub IsFirst : ℕ → List ℤ → Type 0
IsFirst n [] = ⊥
IsFirst zero (r ∷ relevances) = ltb_ℤ (pos 0) r ≡ true
IsFirst (suc n) (r ∷ relevances) = (ltb_ℤ (pos 0) r ≡ false) × IsFirst n relevances

pub first_relevant-cases :
    (start : ℕ) (relevances : List ℤ)
    → ((first_relevant start relevances ≡ none) × (count_positive relevances ≡ 0))
      ⊎ ((rank : ℕ) × (first_relevant start relevances ≡ some rank)
          × (1 ≤ count_positive relevances)
          × (start ≤ rank)
          × (suc rank ≤ start + length relevances)
          × (n : ℕ) × (rank ≡ n + start)
          × IsFirst n relevances)
unfolding first_relevant count_positive
first_relevant-cases start [] = inl (refl, refl)
first_relevant-cases start (r ∷ relevances) = elim (Bool-cases (ltb_ℤ (pos 0) r)) [
  | inl e ↦ inr (start, ground arith, ground arith, ground arith, ground arith, 0, omega arith, e)
  | inr e ↦ elim (first_relevant-cases (suc start) relevances) [
    | inl (f, g) ↦ inl (ground arith, ground arith)
    | inr (rank, f, g, h, i, n, at, first) ↦ inr (
      rank,
      ground arith,
      ground arith,
      ground arith,
      ground arith,
      suc n,
      omega arith,
      (e, first),
    )
  ]
]

-- The rank, from 0, of the first key of a list that is relevant.
abbrev pub IsFirstFound : List (Key × ℤ) → ℕ → List Key → Type 0
IsFirstFound items n [] = ⊥
IsFirstFound items zero (k ∷ keys) = has_key k items ≡ true
IsFirstFound items (suc n) (k ∷ keys) = (has_key k items ≡ false) × IsFirstFound items n keys

-- A seen key is not relevant where no seen key is.
member_irrelevant :
    (items : List (Key × ℤ)) (k : Key) (seen : List Key)
    → count_found items seen ≡ 0
    → member k seen ≡ true
    → has_key k items ≡ false
unfolding count_found member
member_irrelevant items k [] none_found h = cc
member_irrelevant items k (l ∷ seen) none_found h = elim (Bool-cases (has_key l items)) [
  | inl there ↦ absurd (ground arith)
  | inr missing ↦ elim (Bool-cases (key_eq k l)) [
    | inl same ↦ ap (λ m. has_key m items) (key_eq_sound k l same) ∙ missing
    | inr other ↦ member_irrelevant items k seen (ground arith) (ground arith)
  ]
]

-- A key with no positive relevance is not relevant, and no more keys are found with it.
irrelevant_here :
    (items : List (Key × ℤ)) (k : Key) (seen : List Key)
    → All IsPositive items
    → count_found items seen ≡ 0
    → ltb_ℤ (pos 0) (if member k seen then pos 0 else relevance_of k items) ≡ false
    → (has_key k items ≡ false) × (count_found items (add_seen k seen) ≡ 0)
irrelevant_here items k seen all none_found h =
    let positive = relevance_of_positive k items all in
    let added = count_found-add_seen items k seen in
    elim (Bool-cases (member k seen)) [
      | inl there ↦ (member_irrelevant items k seen none_found there, ground arith)
      | inr missing ↦ (ground arith, ground arith)
    ]

-- The rank of the first relevance that is positive is that of the first key that is relevant.
pub IsFirst-found :
    (items : List (Key × ℤ)) (n : ℕ) (seen keys : List Key)
    → All IsPositive items
    → count_found items seen ≡ 0
    → IsFirst n (retrieved_relevances items seen keys).0
    → IsFirstFound items n keys
unfolding retrieved_relevances
IsFirst-found items n seen [] all none_found h = h
IsFirst-found items zero seen (k ∷ keys) all none_found h =
    let positive = relevance_of_positive k items all in ground arith
IsFirst-found items (suc n) seen (k ∷ keys) all none_found h =
    let (irrelevant, still_none) : (has_key k items ≡ false)
        × (count_found items (add_seen k seen) ≡ 0) =
      irrelevant_here items k seen all none_found h.0 in
    (irrelevant, IsFirst-found items n (add_seen k seen) keys all still_none h.1)

pub nothing_found : (items : List (Key × ℤ)) → count_found items [] ≡ 0
unfolding count_found
nothing_found items = refl
