-- ===== src/Migrations.antt =====
-- migrations/versions: the two revisions as lists of the operations of alembic. The database that
-- carries them out is a parameter.
pub mod Initial
pub mod Deleting
pub mod Agreement
pub mod Interruption
use enterprise_knowledge_sea.Common.{ℕ, ◌≡◌, Bool, Text, text_eq, List, [], ◌∷◌, map, if◌then◌else◌}
use enterprise_knowledge_sea.Errors.{Result, ok, ◌>>=◌}
use enterprise_knowledge_sea.Persistence.Schema.{Table, Check, Value}

pub record Index : Type 0 where
  pub name : Text
  pub table : Text
  pub columns : List Text

pub data Operation : Type 0 where
  create_table : Table → Operation
  create_index : Index → Operation
  drop_table drop_index : Text → Operation
  -- of a constraint of a table
  drop_constraint : (name : Text) (table : Text) → Operation
  create_check_constraint : (name : Text) (table : Text) → Check → Operation
  -- of one row, by its columns
  bulk_insert : (table : Text) → List (Text × Value) → Operation

-- what carries the operations out, and the tables of its state
pub record Ddl (C : Type 0) : Type 0 where
  pub apply : Operation → C → Result C
  pub tables : C → List Table

-- the constraints but those of a name
unfoldable pub without_check : Text → List (Text × Check) → List (Text × Check)
without_check name [] = []
without_check name ((n, check) ∷ checks) =
    let rest = without_check name checks in if text_eq name n then rest else (n, check) ∷ rest

-- the tables, the constraints of the one of a name changed
unfoldable pub altered :
    Text → (List (Text × Check) → List (Text × Check)) → List Table → List Table
altered name change =
    map (λ t. if text_eq name t.name then record t { checks = change t.checks } else t)

-- What is documented of the operations that return: a table is created as it is described; indexes
-- and rows change no description of a table; a constraint is dropped from, or added to, its table
-- only.
pub record DdlLaws {C : Type 0} (ddl : Ddl C) : Type 0 where
  pub tables-create_table :
      (t : Table) (c d : C) → ddl.apply (create_table t) c ≡ ok d → ddl.tables d ≡ t ∷ ddl.tables c
  pub tables-create_index :
      (i : Index) (c d : C) → ddl.apply (create_index i) c ≡ ok d → ddl.tables d ≡ ddl.tables c
  pub tables-drop_constraint :
      (name table : Text) (c d : C)
      → ddl.apply (drop_constraint name table) c ≡ ok d
      → ddl.tables d ≡ altered table (without_check name) (ddl.tables c)
  pub tables-create_check_constraint :
      (name table : Text) (check : Check) (c d : C)
      → ddl.apply (create_check_constraint name table check) c ≡ ok d
      → ddl.tables d ≡ altered table (λ checks. (name, check) ∷ checks) (ddl.tables c)
  pub tables-bulk_insert :
      (table : Text) (row : List (Text × Value)) (c d : C)
      → ddl.apply (bulk_insert table row) c ≡ ok d
      → ddl.tables d ≡ ddl.tables c

-- the operations, one after the other
unfoldable pub run : {C : Type 0} → Ddl C → List Operation → C → Result C
run ddl [] c = ok c
run ddl (o ∷ operations) c = do d ← ddl.apply o c; run ddl operations d
