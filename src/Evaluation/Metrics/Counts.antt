-- ===== src/Evaluation/Metrics/Counts.antt =====
-- The counts behind the recall and the reciprocal rank.
use enterprise_knowledge_sea.Common.{
  ℕ, ◌+◌, ◌≤◌, ◌≡◌, refl, sym, subst, inl, inr, true, false, Bool-cases, Option, none, some, Text,
  List, [], ◌∷◌, length, text_eq_sound, text_eq_refl, ℤ, pos, negsuc, if◌then◌else◌, arith,
}
use enterprise_knowledge_sea.Evaluation.Metrics.{
  Key, path_eq, page_eq, key_eq, has_key, member, add_seen, retrieved_relevances, count_found,
}

path_eq_sound : (s t : List Text) → path_eq s t ≡ true → s ≡ t
unfolding path_eq
path_eq_sound [] [] h = refl
path_eq_sound [] (b ∷ t) h = ground arith
path_eq_sound (a ∷ s) [] h = ground arith
path_eq_sound (a ∷ s) (b ∷ t) h = ground (arith, text_eq_sound a b, path_eq_sound s t)

path_eq_refl : (s : List Text) → path_eq s s ≡ true
unfolding path_eq
path_eq_refl [] = refl
path_eq_refl (a ∷ s) = ground (arith, text_eq_refl a, path_eq_refl s)

page_eq_sound : (p q : Option ℤ) → page_eq p q ≡ true → p ≡ q
unfolding page_eq
page_eq_sound none none h = refl
page_eq_sound none (some n) h = ground arith
page_eq_sound (some (pos m)) none h = ground arith
page_eq_sound (some (negsuc m)) none h = ground arith
page_eq_sound (some (pos m)) (some (pos n)) h = ground arith
page_eq_sound (some (pos m)) (some (negsuc n)) h = ground arith
page_eq_sound (some (negsuc m)) (some (pos n)) h = ground arith
page_eq_sound (some (negsuc m)) (some (negsuc n)) h = ground arith

page_eq_refl : (p : Option ℤ) → page_eq p p ≡ true
unfolding page_eq
page_eq_refl none = refl
page_eq_refl (some (pos m)) = ground arith
page_eq_refl (some (negsuc m)) = ground arith

pub key_eq_sound : (k l : Key) → key_eq k l ≡ true → k ≡ l
unfolding key_eq
key_eq_sound (f, s, p) (g, t, q) h =
    ground (arith, text_eq_sound f g, path_eq_sound s t, page_eq_sound p q)

key_eq_refl : (k : Key) → key_eq k k ≡ true
unfolding key_eq
key_eq_refl (f, s, p) = ground (arith, text_eq_refl f, path_eq_refl s, page_eq_refl p)

key_eq_sym : (k l : Key) → key_eq k l ≡ false → key_eq l k ≡ false
key_eq_sym k l h = elim (Bool-cases (key_eq l k)) [
  | inr different ↦ different
  | inl same ↦
      let unequal : key_eq k k ≡ false =
        subst (λ m. key_eq k m ≡ false) (key_eq_sound l k same) h in
      ground (arith, key_eq_refl k)
]

-- No element of a list stands in it twice.
abbrev pub AreDistinct : List Key → Type 0
AreDistinct [] = Unit
AreDistinct (k ∷ seen) = (member k seen ≡ false) × AreDistinct seen

-- how often a key stands in a list
unfoldable count_key : Key → List Key → ℕ
count_key k [] = 0
count_key k (l ∷ seen) = (if key_eq l k then 1 else 0) + count_key k seen

count_key_none : (k : Key) (seen : List Key) → member k seen ≡ false → count_key k seen ≡ 0
unfolding count_key member
count_key_none k [] h = refl
count_key_none k (l ∷ seen) h = ground (arith, key_eq_sym k l, count_key_none k seen)

count_key_once : (k : Key) (seen : List Key) → AreDistinct seen → count_key k seen ≤ 1
unfolding count_key
count_key_once k [] d = omega arith
count_key_once k (l ∷ seen) (new, d) = elim (Bool-cases (key_eq l k)) [
  | inr h ↦ ground (arith, count_key_once k seen d)
  | inl h ↦
      let none_left : count_key k seen ≡ 0 =
        subst (λ m. count_key m seen ≡ 0) (key_eq_sound l k h) (count_key_none l seen new) in
      ground arith
]

count_found_none : (seen : List Key) → count_found [] seen ≡ 0
unfolding count_found has_key
count_found_none [] = refl
count_found_none (l ∷ seen) = ground (arith, count_found_none seen)

count_found_more :
    (k : Key) (r : ℤ) (items : List (Key × ℤ)) (seen : List Key)
    → count_found ((k, r) ∷ items) seen ≤ count_key k seen + count_found items seen
unfolding count_found has_key count_key
count_found_more k r items [] = omega arith
count_found_more k r items (l ∷ seen) = ground (arith, count_found_more k r items seen)

-- As many different keys are found as there are items, at most.
pub count_found_bounded :
    (items : List (Key × ℤ)) (seen : List Key)
    → AreDistinct seen
    → count_found items seen ≤ length items
count_found_bounded [] seen d = ground (arith, count_found_none seen)
count_found_bounded ((k, r) ∷ items) seen d = omega (
  arith,
  count_found_more k r items seen,
  count_key_once k seen d,
  count_found_bounded items seen d,
)

add_seen-AreDistinct :
    (k : Key) (seen : List Key) → AreDistinct seen → AreDistinct (add_seen k seen)
unfolding add_seen
add_seen-AreDistinct k seen d = elim (Bool-cases (member k seen)) [
  | inl h ↦ let same : add_seen k seen ≡ seen = ground arith in subst AreDistinct (sym same) d
  | inr h ↦
      let more : add_seen k seen ≡ k ∷ seen = ground arith in subst AreDistinct (sym more) (h, d)
]

-- What the loop has seen is without repetition.
pub retrieved_relevances-AreDistinct :
    (items : List (Key × ℤ)) (seen keys : List Key)
    → AreDistinct seen
    → AreDistinct (retrieved_relevances items seen keys).1
unfolding retrieved_relevances
retrieved_relevances-AreDistinct items seen [] d = d
retrieved_relevances-AreDistinct items seen (k ∷ keys) d =
    retrieved_relevances-AreDistinct items (add_seen k seen) keys (add_seen-AreDistinct k seen d)
