-- ===== src/Ingestion/Normalize.antt =====
-- knowledge_search/ingestion/normalization.py: the text of a section, cleaned.
pub mod Edges
use enterprise_knowledge_sea.Common.{
  ℕ, Bool, true, false, ◌&&◌, ◌||◌, Text, List, [], ◌∷◌, map, strip, ◌==◌, if◌then◌else◌,
}
use enterprise_knowledge_sea.Platform.{Platform}

-- the text begins with the character
abbrev pub begins : ℕ → Text → Bool
begins c [] = false
begins c (d ∷ s) = d == c

-- `.replace("\r\n", "\n")`
unfoldable pub replace_crlf : Text → Text
replace_crlf [] = []
replace_crlf (c ∷ s) =
    let rest = replace_crlf s in if c == 13 && begins 10 s then rest else c ∷ rest

-- `.replace(a, b)` for single characters
unfoldable pub replace_char : ℕ → ℕ → Text → Text
replace_char a b = map (λ c. if c == a then b else c)

-- the rest of a text is at the end of a line
abbrev pub ends_line : Text → Bool
ends_line [] = true
ends_line (c ∷ s) = c == 10

-- a space or a tab
abbrev pub is_blank_char : ℕ → Bool
is_blank_char c = c == 32 || c == 9

-- `TRAILING_WHITESPACE.sub("", text)`: `[ \t]+$` on each line
unfoldable pub drop_trailing : Text → Text
drop_trailing [] = []
drop_trailing (c ∷ s) =
    let rest = drop_trailing s in if is_blank_char c && ends_line rest then rest else c ∷ rest

-- the text begins with two line feeds
abbrev pub begins_blank_line : Text → Bool
begins_blank_line [] = false
begins_blank_line (c ∷ s) = c == 10 && begins 10 s

-- `EXCESS_BLANK_LINES.sub("\n\n", text)`: `\n{3,}`
unfoldable pub collapse_lines : Text → Text
collapse_lines [] = []
collapse_lines (c ∷ s) =
    let rest = collapse_lines s in if c == 10 && begins_blank_line rest then rest else c ∷ rest

unfoldable pub normalize_document_text : Platform → Text → Text
normalize_document_text p text =
    let normalized = replace_char 13 10 (replace_crlf (p.nfc text)) in
    let spaced = replace_char 0xa0 32 normalized in strip (collapse_lines (drop_trailing spaced))
