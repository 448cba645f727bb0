-- ===== src/Ingestion/Normalize/Edges.antt =====
-- `strip` leaves visible edges.
use enterprise_knowledge_sea.Common.{
  ◌≡◌, refl, Bool-cases, inl, inr, Text, [], ◌∷◌, false, is_empty, is_space, lstrip, strip,
}
use enterprise_knowledge_sea.Platform.{Platform}
use enterprise_knowledge_sea.Ingestion.Tokens.Spans.{IsSolid}
use enterprise_knowledge_sea.Ingestion.Normalize.{normalize_document_text}

pub lstrip-IsSolid : (s : Text) → is_empty (lstrip s) ≡ false → IsSolid (lstrip s) 0
unfolding lstrip
lstrip-IsSolid [] h = cc
lstrip-IsSolid (c ∷ s) h = elim (Bool-cases (is_space c)) [
  | inl space ↦ rw space (lstrip-IsSolid s (rw space at h))
  | inr visible ↦ rw visible (c, refl, visible)
]

-- A normalized text that is not empty begins with a visible character.
pub normalize-IsSolid :
    (p : Platform) (t : Text)
    → is_empty (normalize_document_text p t) ≡ false
    → IsSolid (normalize_document_text p t) 0
unfolding normalize_document_text strip
normalize-IsSolid p t h = lstrip-IsSolid _ h
