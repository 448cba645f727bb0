-- ===== src/Persistence/Schema.antt =====
-- The language of the schema in knowledge_search/persistence/models.py and migrations/versions:
-- tables with typed columns and CHECK constraints, which SQL evaluates in three truth values.
pub mod Models
pub mod Rows
pub mod Admitted
use enterprise_knowledge_sea.Common.{
  ℕ, Bool, true, false, ◌&&◌, ◌||◌, not, Option, none, some, Text, text_eq, List, [], ◌∷◌, length,
  leb, ltb, ℤ, pos, negsuc, ltb_ℤ, ◌==◌, if◌then◌else◌,
}
use enterprise_knowledge_sea.Domain.Checks.{Datetime, is_sha256}
use enterprise_knowledge_sea.Platform.{surrogate}

-- what a column of a row holds
pub data Value : Type 0 where
  null_value : Value
  text_value : Text → Value
  number_value : ℤ → Value
  uuid_value : ℕ → Value
  time_value : Datetime → Value
  array_value : List Text → Value
  -- a column that the database computes, and whether its expression returns for the row
  generated_value : Bool → Value

-- a row, by the names of its columns
abbrev pub Row : Type 0
Row = Text → Value

pub data ColumnType : Type 0 where
  uuid_type text_type integer_type big_integer_type small_integer_type : ColumnType
  timestamp_type jsonb_type tsvector_type : ColumnType
  varchar : ℕ → ColumnType

pub record Column : Type 0 where
  pub name : Text
  pub type : ColumnType
  pub nullable : Bool

-- the conditions of the CHECK constraints
pub data Check : Type 0 where
  -- `column IN (...)`, `column = 'value'`, `column <> 'value'`
  column_in : Text → List Text → Check
  text_is text_is_not : Text → Text → Check
  -- `column >= n`, `column > n`, `column = n`
  number_at_least number_above number_is : Text → ℕ → Check
  -- `column >= column`
  column_at_least : Text → Text → Check
  -- `char_length(column) > n`
  length_above : Text → ℕ → Check
  -- `column ~ '^[0-9a-f]{64}$'`, `jsonb_typeof(column) = 'array'`
  matches_sha256 is_array : Text → Check
  is_null is_not_null : Text → Check
  both either : Check → Check → Check

pub record Table : Type 0 where
  pub name : Text
  pub columns : List Column
  pub checks : List (Text × Check)
  -- the primary key and the unique constraints
  pub keys : List (List Text)
  -- a column that refers to a table, with ON DELETE CASCADE
  pub references : List (Text × Text)

-- `-(limit) <= n < limit`
abbrev pub in_range : ℕ → ℤ → Bool
in_range limit (pos n) = ltb n limit
in_range limit (negsuc n) = ltb n limit

abbrev pub all_of : {A : Type 0} → (A → Bool) → List A → Bool
all_of p [] = true
all_of p (a ∷ rest) = p a && all_of p rest

-- PostgreSQL stores neither U+0000 nor a surrogate.
unfoldable pub storable : Text → Bool
storable [] = true
storable (c ∷ t) = not (c == 0) && not (surrogate c) && storable t

-- a value that is not null fits the type of its column
unfoldable pub fits : ColumnType → Value → Bool
fits uuid_type (uuid_value u) = true
fits text_type (text_value t) = storable t
fits (varchar limit) (text_value t) = leb (length t) limit && storable t
fits small_integer_type (number_value n) = in_range 32768 n
fits integer_type (number_value n) = in_range 2147483648 n
fits big_integer_type (number_value n) = in_range 9223372036854775808 n
fits timestamp_type (time_value t) = true
fits jsonb_type (array_value path) = all_of storable path
fits tsvector_type (generated_value computed) = computed
fits _ _ = false

unfoldable pub column_admits : Row → Column → Bool
column_admits row c = elim (row c.name) [ null_value ↦ c.nullable | v ↦ fits c.type v ]

-- the truth value of a condition on a text or on a number: unknown where the column is null
abbrev on_text : (Text → Bool) → Value → Option Bool
on_text test (text_value t) = some (test t)
on_text test _ = none

abbrev on_number : (ℤ → Bool) → Value → Option Bool
on_number test (number_value n) = some (test n)
on_number test _ = none

abbrev pub one_of : Text → List Text → Bool
one_of t [] = false
one_of t (u ∷ texts) = text_eq t u || one_of t texts

abbrev is_null_value : Value → Bool
is_null_value null_value = true
is_null_value _ = false

abbrev array_truth : Value → Option Bool
array_truth null_value = none
array_truth (array_value path) = some true
array_truth _ = some false

-- `a >= b`
abbrev at_least : Value → Value → Option Bool
at_least (number_value m) (number_value n) = some (not (ltb_ℤ m n))
at_least _ _ = none

-- AND and OR
abbrev sql_and : Option Bool → Option Bool → Option Bool
sql_and (some false) q = some false
sql_and (some true) q = q
sql_and none (some false) = some false
sql_and none q = none

abbrev sql_or : Option Bool → Option Bool → Option Bool
sql_or (some true) q = some true
sql_or (some false) q = q
sql_or none (some true) = some true
sql_or none q = none

unfoldable pub truth : Row → Check → Option Bool
truth row (column_in c texts) = on_text (λ t. one_of t texts) (row c)
truth row (text_is c u) = on_text (λ t. text_eq t u) (row c)
truth row (text_is_not c u) = on_text (λ t. not (text_eq t u)) (row c)
truth row (number_at_least c n) = on_number (λ m. not (ltb_ℤ m (pos n))) (row c)
truth row (number_above c n) = on_number (λ m. ltb_ℤ (pos n) m) (row c)
truth row (number_is c n) = on_number (λ m. not (ltb_ℤ m (pos n)) && not (ltb_ℤ (pos n) m)) (row c)
truth row (column_at_least c d) = at_least (row c) (row d)
truth row (length_above c n) = on_text (λ t. ltb n (length t)) (row c)
truth row (matches_sha256 c) = on_text is_sha256 (row c)
truth row (is_array c) = array_truth (row c)
truth row (is_null c) = some (is_null_value (row c))
truth row (is_not_null c) = some (not (is_null_value (row c)))
truth row (both a b) = sql_and (truth row a) (truth row b)
truth row (either a b) = sql_or (truth row a) (truth row b)

-- a constraint is violated only where its condition is false
abbrev not_false : Option Bool → Bool
not_false (some false) = false
not_false _ = true

unfoldable pub check_admits : Row → Text × Check → Bool
check_admits row (name, check) = not_false (truth row check)

-- the columns and the constraints of a table admit a row
unfoldable pub table_admits : Table → Row → Bool
table_admits t row = all_of (column_admits row) t.columns && all_of (check_admits row) t.checks

unfoldable pub find_table : Text → List Table → Option Table
find_table name [] = none
find_table name (t ∷ tables) = if text_eq name t.name then some t else find_table name tables

-- the table of that name, if there is one, admits the row
unfoldable pub admits : List Table → Text → Row → Bool
admits tables name row = elim (find_table name tables) [
  | none ↦ false
  | some t ↦ table_admits t row
]
