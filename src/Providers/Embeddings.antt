-- ===== src/Providers/Embeddings.antt =====
-- class FastEmbedProvider of knowledge_search/providers/embeddings.py. The model is a parameter; a
-- vector is a list of floats.
use enterprise_knowledge_sea.Common.{
  ℕ, ◌≡◌, refl, Bool, false, ◌||◌, not, Text, List, [], ◌∷◌, length, All, ◌==◌, arith, ◌⊎◌, inl,
  inr, Bool-cases,
}
use enterprise_knowledge_sea.Errors.{Result, ok, err, raise_if, embedding_error, ◌>>◌, Result-cases}

-- `any(len(vector) != dimensions for vector in vectors)`
unfoldable pub any_other_length : {F : Type 0} → ℕ → List (List F) → Bool
any_other_length dimensions [] = false
any_other_length dimensions (v ∷ vectors) =
    not (length v == dimensions) || any_other_length dimensions vectors

-- `embed_documents`, for what the model gives for the texts
unfoldable pub embed_documents :
    {F : Type 0} → (List Text → Result (List (List F))) → ℕ → List Text → Result (List (List F))
embed_documents embed dimensions [] = ok []
embed_documents embed dimensions (t ∷ texts) = elim (embed (t ∷ texts)) [
  | err e ↦ err embedding_error
  | ok vectors ↦ do
    raise_if (not (length vectors == length (t ∷ texts))) embedding_error
    raise_if (any_other_length dimensions vectors) embedding_error
    ok vectors
]

same_lengths :
    {F : Type 0} (dimensions : ℕ) (vectors : List (List F))
    → any_other_length dimensions vectors ≡ false
    → All (λ v. length v ≡ dimensions) vectors
unfolding any_other_length
same_lengths dimensions [] h = tt
same_lengths dimensions (v ∷ vectors) h =
    (ground arith, same_lengths dimensions vectors (ground arith))

-- Whatever the model gives or raises, the embedding of texts is one vector of the configured
-- dimensions for each text, or the embedding error.
pub embed_documents_outcomes :
    {F : Type 0} (embed : List Text → Result (List (List F))) (dimensions : ℕ) (texts : List Text)
    → ((vectors : List (List F)) × (embed_documents embed dimensions texts ≡ ok vectors)
        × (length vectors ≡ length texts)
        × All (λ v. length v ≡ dimensions) vectors)
      ⊎ (embed_documents embed dimensions texts ≡ err embedding_error)
unfolding embed_documents
embed_documents_outcomes embed dimensions [] = inl ([], refl, refl, tt)
embed_documents_outcomes embed dimensions (t ∷ texts) = elim (Result-cases (embed (t ∷ texts))) [
  | inr (e, f) ↦ inr (ground arith)
  | inl (vectors, f) ↦ elim (Bool-cases (length vectors == length (t ∷ texts))) [
    | inr g ↦ inr (ground arith)
    | inl g ↦ elim (Bool-cases (any_other_length dimensions vectors)) [
      | inl h ↦ inr (ground arith)
      | inr h ↦ inl (vectors, ground arith, ground arith, same_lengths dimensions vectors h)
    ]
  ]
]
