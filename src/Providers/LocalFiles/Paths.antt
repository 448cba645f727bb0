-- ===== src/Providers/LocalFiles/Paths.antt =====
-- Where the paths of the document store lie.
use enterprise_knowledge_sea.Common.{
  ◌≡◌, ◌≢◌, refl, true, false, Text, codes, text_eq, text_eq_sound, text_eq_refl, ◌⊎◌, inl, inr,
  Bool-cases, [], ◌∷◌, ◌++◌, arith, ap, length, length-append,
}
use enterprise_knowledge_sea.Errors.{ok}
use enterprise_knowledge_sea.Providers.LocalFiles.{
  FilePath, Store, is_relative_to, path_eq, parent, uploading, resolve_key,
}

-- A path strictly below another.
abbrev pub IsBelow : FilePath → FilePath → Type 0
IsBelow root path = (name : Text) × (rest : FilePath) × (path ≡ root ++ (name ∷ rest))

IsBelow-or_equal :
    (path root : FilePath)
    → is_relative_to path root ≡ true
    → path_eq path root ≡ false
    → IsBelow root path
unfolding is_relative_to path_eq
IsBelow-or_equal [] [] h k = ground arith
IsBelow-or_equal (a ∷ path) [] h k = (a, path, refl)
IsBelow-or_equal [] (b ∷ root) h k = ground arith
IsBelow-or_equal (a ∷ path) (b ∷ root) h k =
    let e : text_eq a b ≡ true = ground arith in
    let (name, rest, f) = IsBelow-or_equal path root (ground arith) (ground arith) in
    (name, rest, ground (arith, text_eq_sound a b e))

pub resolve_key-IsBelow :
    (store : Store) (key : Text) (path : FilePath)
    → resolve_key store key ≡ ok path
    → IsBelow store.root path
unfolding resolve_key
resolve_key-IsBelow store key path h =
    let e : store.resolve key ≡ path = ground arith in
    let r : is_relative_to path store.root ≡ true = ground arith in
    let q : path_eq path store.root ≡ false = ground arith in IsBelow-or_equal path store.root r q

longer_name : (a : Text) → (a ++ codes ".uploading") ≢ a
longer_name a h = omega (arith, length-append a (codes ".uploading"), ap length h)

pub uploading-apart : (a : Text) (path : FilePath) → uploading (a ∷ path) ≢ a ∷ path
unfolding uploading
uploading-apart a [] h = ground (arith, longer_name a)
uploading-apart a (b ∷ path) h = ground (arith, uploading-apart b path)

pub parent-uploading : (p : FilePath) → parent (uploading p) ≡ parent p
unfolding parent uploading
parent-uploading [] = refl
parent-uploading (a ∷ []) = refl
parent-uploading (a ∷ b ∷ []) = refl
parent-uploading (a ∷ b ∷ c ∷ p) = ap (λ q. a ∷ q) (parent-uploading (b ∷ c ∷ p))

pub below_apart : (root path : FilePath) → IsBelow root path → uploading path ≢ path
below_apart [] [] (name, rest, e) h = ground arith
below_apart (b ∷ root) [] (name, rest, e) h = ground arith
below_apart root (a ∷ path) below h = uploading-apart a path h

pub path_eq_sound : (p q : FilePath) → path_eq p q ≡ true → p ≡ q
unfolding path_eq
path_eq_sound [] [] h = refl
path_eq_sound [] (b ∷ q) h = ground arith
path_eq_sound (a ∷ p) [] h = ground arith
path_eq_sound (a ∷ p) (b ∷ q) h = ground (arith, text_eq_sound a b, path_eq_sound p q)

pub path_eq_refl : (p : FilePath) → path_eq p p ≡ true
unfolding path_eq
path_eq_refl [] = refl
path_eq_refl (a ∷ p) = ground (arith, text_eq_refl a, path_eq_refl p)

pub same_path : (p q : FilePath) → (p ≡ q) ⊎ (p ≢ q)
same_path p q = elim (Bool-cases (path_eq p q)) [
  | inl e ↦ inl (path_eq_sound p q (ground arith))
  | inr e ↦ inr (λ h. ground (arith, path_eq_refl p, ap (path_eq p) h))
]
