-- ===== src/Domain/Locator.antt =====
-- class SourceLocator of knowledge_search/domain/documents.py.
use enterprise_knowledge_sea.Common.{
  Bool, false, ◌||◌, ◌≡◌, Option, none, some, List, [], ◌∷◌, Text, blank, ℤ, pos, ltb_ℤ, ◌≤ℤ◌,
  arith,
}
use enterprise_knowledge_sea.Errors.{
  Result, ok, forbid, ◌>>◌, blank_section_path, page_number_not_positive, negative_char_start,
  inverted_char_range,
}

pub record SourceLocator : Type 0 where
  pub section_path : List Text
  pub page_number : Option ℤ
  pub char_start : ℤ
  pub char_end : ℤ

-- `any(not section.strip() for section in section_path)`
abbrev pub any_blank : List Text → Bool
any_blank [] = false
any_blank (s ∷ path) = blank s || any_blank path

-- `page is not None and page < 1`
abbrev pub page_below_one : Option ℤ → Bool
page_below_one none = false
page_below_one (some n) = ltb_ℤ n (pos 1)

-- `__post_init__`: the value itself, or the first violated check.
unfoldable pub post_init : SourceLocator → Result SourceLocator
post_init l = do
  forbid (any_blank l.section_path) blank_section_path
  forbid (page_below_one l.page_number) page_number_not_positive
  forbid (ltb_ℤ l.char_start (pos 0)) negative_char_start
  forbid (ltb_ℤ l.char_end l.char_start) inverted_char_range
  ok l

pub record IsValid (l : SourceLocator) : Type 0 where
  pub path : any_blank l.section_path ≡ false
  pub page : page_below_one l.page_number ≡ false
  pub start : pos 0 ≤ℤ l.char_start
  pub range : l.char_start ≤ℤ l.char_end

pub IsValid-post_init :
    (l : SourceLocator) {l' : SourceLocator} → post_init l ≡ ok l' → IsValid l × (l' ≡ l)
unfolding post_init
IsValid-post_init l h = ground arith

pub post_init_of_IsValid : (l : SourceLocator) → IsValid l → post_init l ≡ ok l
unfolding post_init
post_init_of_IsValid l v = ground arith
