-- ===== src/Ingestion/Models.antt =====
-- knowledge_search/ingestion/models.py: sections before and after normalization, stored files.
use enterprise_knowledge_sea.Common.{Option, Text, List, [], ◌∷◌, ◌++◌, blank, ℤ}
use enterprise_knowledge_sea.Errors.{
  Result, ok, forbid, ◌>>◌, blank_extracted_text, extracted_page_not_positive,
}
use enterprise_knowledge_sea.Domain.Locator.{SourceLocator, page_below_one}

pub record ExtractedSection : Type 0 where
  pub text : Text
  pub section_path : List Text
  pub page_number : Option ℤ

-- `ExtractedSection.__post_init__`
unfoldable pub extracted_post_init : ExtractedSection → Result ExtractedSection
extracted_post_init s = do
  forbid (blank s.text) blank_extracted_text
  forbid (page_below_one s.page_number) extracted_page_not_positive
  ok s

pub record NormalizedSection : Type 0 where
  pub text : Text
  pub locator : SourceLocator

pub record StoredDocument : Type 0 where
  pub storage_key : Text
  pub sha256 : Text
  pub size_bytes : ℤ

-- `"\n\n".join(section.text for section in sections)`
unfoldable pub joined : List NormalizedSection → Text
joined [] = []
joined (s ∷ []) = s.text
joined (s ∷ t ∷ rest) = s.text ++ (10 ∷ 10 ∷ joined (t ∷ rest))
