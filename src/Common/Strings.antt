-- ===== src/Common/Strings.antt =====
-- Python's `str` as the list of its code points, with what the program uses of it.
use Prim.Native.Nat.{ℕ}
use Prim.Native.Char.{code}
use Prim.Native.String.{String}
use mathlib.Core.Path.{◌≡◌, refl, ◌∙◌}
use mathlib.Core.Bool.{Bool, true, false, ◌&&◌, ◌||◌}
use mathlib.Core.List.{List, [], ◌∷◌, ◌++◌}
use native.Mathlib.Omega.{arith}
use enterprise_knowledge_sea.Common.Tests.{leb, ◌==◌, if◌then◌else◌}

abbrev pub Text : Type 0
Text = List ℕ

abbrev pub codes : String → Text
codes String.[] = []
codes (String.◌∷◌ c s) = code c ∷ codes s

-- `str.isspace` of one character, which is also `\s` of `re` on a `str`.
unfoldable pub is_space : ℕ → Bool
is_space c =
    (leb 9 c && leb c 13)
    || (leb 28 c && leb c 32)
    || c == 0x85
    || c == 0xa0
    || c == 0x1680
    || (leb 0x2000 c && leb c 0x200a)
    || c == 0x2028
    || c == 0x2029
    || c == 0x202f
    || c == 0x205f
    || c == 0x3000

abbrev pub is_empty {ℓ} : {A : Type ℓ} → List A → Bool
is_empty [] = true
is_empty (x ∷ xs) = false

unfoldable pub lstrip : Text → Text
lstrip [] = []
lstrip (c ∷ s) = let rest = lstrip s in if is_space c then rest else c ∷ s

unfoldable pub rstrip : Text → Text
rstrip [] = []
rstrip (c ∷ s) = let rest = rstrip s in if is_empty rest && is_space c then [] else c ∷ rest

-- `s.strip()`
unfoldable pub strip : Text → Text
unfolding lstrip rstrip
strip s = lstrip (rstrip s)

-- `not s.strip()`
unfoldable pub blank : Text → Bool
unfolding strip
blank s = is_empty (strip s)

-- Equality of texts.
unfoldable pub text_eq : Text → Text → Bool
text_eq [] [] = true
text_eq (c ∷ s) (d ∷ t) = c == d && text_eq s t
text_eq _ _ = false

pub text_eq_sound : (s t : Text) → text_eq s t ≡ true → s ≡ t
unfolding text_eq
text_eq_sound [] [] h = refl
text_eq_sound [] (d ∷ t) h = ground arith
text_eq_sound (c ∷ s) [] h = ground arith
text_eq_sound (c ∷ s) (d ∷ t) h = ground (arith, text_eq_sound s t)

pub text_eq_refl : (s : Text) → text_eq s s ≡ true
unfolding text_eq
text_eq_refl [] = refl
text_eq_refl (c ∷ s) = ground (arith, text_eq_refl s)

-- Every character is white space.
abbrev pub all_space : Text → Bool
all_space [] = true
all_space (c ∷ s) = is_space c && all_space s

empty-rstrip : (s : Text) → is_empty (rstrip s) ≡ all_space s
unfolding rstrip
empty-rstrip [] = refl
empty-rstrip (c ∷ s) = ground (arith, empty-rstrip s)

all_space-rstrip : (s : Text) → all_space (rstrip s) ≡ all_space s
unfolding rstrip
all_space-rstrip [] = refl
all_space-rstrip (c ∷ s) = ground (arith, all_space-rstrip s, empty-rstrip s)

empty-lstrip : (s : Text) → is_empty (lstrip s) ≡ all_space s
unfolding lstrip
empty-lstrip [] = refl
empty-lstrip (c ∷ s) = ground (arith, empty-lstrip s)

pub blank_all : (s : Text) → blank s ≡ all_space s
unfolding blank
blank_all s = empty-lstrip (rstrip s) ∙ all_space-rstrip s

pub all_space-append : (s t : Text) → all_space (s ++ t) ≡ all_space s && all_space t
all_space-append [] t = refl
all_space-append (c ∷ s) t = ground (arith, all_space-append s t)

lstrip_visible : (s : Text) → is_empty (lstrip s) ≡ false → all_space (lstrip s) ≡ false
unfolding lstrip
lstrip_visible [] h = h
lstrip_visible (c ∷ s) h = ground (arith, lstrip_visible s)

-- What is left of a text by `strip` is not blank where there is any.
pub strip_visible : (s : Text) → is_empty (strip s) ≡ false → blank (strip s) ≡ false
unfolding strip
strip_visible s h = blank_all (lstrip (rstrip s)) ∙ lstrip_visible (rstrip s) h
