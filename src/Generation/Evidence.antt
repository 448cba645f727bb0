-- ===== src/Generation/Evidence.antt =====
-- `_evidence_message` of knowledge_search/generation/http_chat.py: the citations as a text.
use enterprise_knowledge_sea.Common.{
  ℕ, zero, suc, ◌≡◌, refl, Option, none, some, ℤ, pos, Text, codes, List, [], ◌∷◌, ◌++◌, append-nil,
  append_assoc,
}
use enterprise_knowledge_sea.Platform.{Platform}
use enterprise_knowledge_sea.Domain.Chunk.{Citation}

-- what follows the first text in `separator.join(texts)`
abbrev joined_rest : Text → List Text → Text
joined_rest separator [] = []
joined_rest separator (t ∷ texts) = separator ++ (t ++ joined_rest separator texts)

-- `separator.join(texts)`
abbrev pub join : Text → List Text → Text
join separator [] = []
join separator (t ∷ texts) = t ++ joined_rest separator texts

-- `text or 'unspecified'`
abbrev pub or_unspecified : Text → Text
or_unspecified [] = codes "unspecified"
or_unspecified (c ∷ s) = c ∷ s

-- `page_number or 'unspecified'`, in the text of the entry
abbrev pub page_text : Platform → Option ℤ → Text
page_text p none = codes "unspecified"
page_text p (some (pos zero)) = codes "unspecified"
page_text p (some page) = p.int_text page

-- the entry of a citation, under its number
unfoldable pub evidence_entry : Platform → ℕ → Citation → Text
evidence_entry p number citation =
    codes "["
    ++ (p.int_text (pos number)
        ++ (codes "] Document: "
            ++ (citation.original_filename
                ++ (codes "; section: "
                    ++ (or_unspecified (join (codes " > ") citation.section_path)
                        ++ (codes "; page: "
                            ++ (page_text p citation.page_number
                                ++ (codes "\n" ++ citation.excerpt))))))))

-- the entries, numbered from a number on
abbrev pub evidence_entries : Platform → ℕ → List Citation → List Text
evidence_entries p number [] = []
evidence_entries p number (c ∷ citations) =
    evidence_entry p number c ∷ evidence_entries p (suc number) citations

-- `_evidence_message`
unfoldable pub evidence_message : Platform → Text → List Citation → Text
evidence_message p question citations =
    (codes "Question:\n" ++ (question ++ codes "\n\nEvidence:\n"))
    ++ join (codes "\n\n") (evidence_entries p 1 citations)

-- A text stands in another.
abbrev pub IsWithin : Text → Text → Type 0
IsWithin inner outer = (before : Text) × (after : Text) × (outer ≡ before ++ (inner ++ after))

-- The entry of every citation stands in the text, under its number.
abbrev pub AreQuotedFrom : Platform → ℕ → List Citation → Text → Type 0
AreQuotedFrom p number [] text = Unit
AreQuotedFrom p number (c ∷ citations) text =
    IsWithin (evidence_entry p number c) text × AreQuotedFrom p (suc number) citations text

IsWithin-trans : (a b c : Text) → IsWithin a b → IsWithin b c → IsWithin a c
IsWithin-trans a b c (before, after, e) (left, right, f) =
    (left ++ before, after ++ right, simp (f, e, append_assoc))

AreQuotedFrom-IsWithin :
    (p : Platform) (number : ℕ) (citations : List Citation) (inner outer : Text)
    → IsWithin inner outer
    → AreQuotedFrom p number citations inner
    → AreQuotedFrom p number citations outer
AreQuotedFrom-IsWithin p number [] inner outer h q = tt
AreQuotedFrom-IsWithin p number (c ∷ citations) inner outer h q = (
  IsWithin-trans (evidence_entry p number c) inner outer q.0 h,
  AreQuotedFrom-IsWithin p (suc number) citations inner outer h q.1,
)

append-IsWithin : (before inner : Text) → IsWithin inner (before ++ inner)
append-IsWithin before inner = (before, [], simp append-nil)

rest-AreQuoted :
    (p : Platform) (separator : Text) (number : ℕ) (citations : List Citation)
    → AreQuotedFrom p number citations (joined_rest separator (evidence_entries p number citations))
rest-AreQuoted p separator number [] = tt
rest-AreQuoted p separator number (c ∷ citations) =
    let rest = joined_rest separator (evidence_entries p (suc number) citations) in
    let text = separator ++ (evidence_entry p number c ++ rest) in
    (
      (separator, rest, refl),
      AreQuotedFrom-IsWithin p (suc number) citations rest text
          (IsWithin-trans rest (evidence_entry p number c ++ rest) text
            (append-IsWithin (evidence_entry p number c) rest)
            (append-IsWithin separator (evidence_entry p number c ++ rest)))
          (rest-AreQuoted p separator (suc number) citations),
    )

join-AreQuoted :
    (p : Platform) (separator : Text) (number : ℕ) (citations : List Citation)
    → AreQuotedFrom p number citations (join separator (evidence_entries p number citations))
join-AreQuoted p separator number [] = tt
join-AreQuoted p separator number (c ∷ citations) =
    let rest = joined_rest separator (evidence_entries p (suc number) citations) in
    (
      ([], rest, refl),
      AreQuotedFrom-IsWithin p (suc number) citations rest (evidence_entry p number c ++ rest)
          (append-IsWithin (evidence_entry p number c) rest)
          (rest-AreQuoted p separator (suc number) citations),
    )

-- The entry of every citation stands in the message, numbered from one.
pub evidence_message-AreQuoted :
    (p : Platform) (question : Text) (citations : List Citation)
    → AreQuotedFrom p 1 citations (evidence_message p question citations)
unfolding evidence_message
evidence_message-AreQuoted p question citations =
    let entries = join (codes "\n\n") (evidence_entries p 1 citations) in
    AreQuotedFrom-IsWithin p 1 citations entries (evidence_message p question citations)
      (append-IsWithin (codes "Question:\n" ++ (question ++ codes "\n\nEvidence:\n")) entries)
      (join-AreQuoted p (codes "\n\n") 1 citations)
