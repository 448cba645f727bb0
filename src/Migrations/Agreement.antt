-- ===== src/Migrations/Agreement.antt =====
-- The migrated tables admit the rows that the declared ones admit.
use enterprise_knowledge_sea.Common.{
  ◌≡◌, sym, subst, ap, ◌∙◌, true, false, Bool-cases, Text, codes, text_eq, text_eq_sound, List, [],
  ◌∷◌, ◌++◌, inl, inr, arith,
}
use enterprise_knowledge_sea.Errors.{ok, >>=-eq-ok, ok-injective}
use enterprise_knowledge_sea.Persistence.Schema.{Row, Table, table_admits, find_table, admits}
use enterprise_knowledge_sea.Persistence.Schema.Models.{declared}
use enterprise_knowledge_sea.Migrations.{
  Operation, create_table, create_index, drop_table, drop_index, drop_constraint,
  create_check_constraint, bulk_insert, Ddl, DdlLaws, altered, without_check, run,
}
use enterprise_knowledge_sea.Migrations.Initial.{initial_upgrade}
use enterprise_knowledge_sea.Migrations.Deleting.{deleting_upgrade}

-- No operation drops a table or an index.
abbrev pub AreAdditions : List Operation → Type 0
AreAdditions [] = Unit
AreAdditions (drop_table name ∷ operations) = ⊥
AreAdditions (drop_index name ∷ operations) = ⊥
AreAdditions (o ∷ operations) = AreAdditions operations

-- The tables after an operation that drops no table.
abbrev after : Operation → List Table → List Table
after (create_table t) tables = t ∷ tables
after (drop_constraint name table) tables = altered table (without_check name) tables
after (create_check_constraint name table check) tables =
    altered table (λ checks. (name, check) ∷ checks) tables
after _ tables = tables

unfoldable pub after_all : List Operation → List Table → List Table
after_all [] tables = tables
after_all (o ∷ operations) tables = after_all operations (after o tables)

module _ {C : Type 0} (ddl : Ddl C) (laws : DdlLaws ddl) where
  tables_of_rest :
      (o : Operation) (operations : List Operation) (c x d : C)
      → ddl.tables x ≡ after o (ddl.tables c)
      → ddl.tables d ≡ after_all operations (ddl.tables x)
      → ddl.tables d ≡ after_all operations (after o (ddl.tables c))
  tables_of_rest o operations c x d e h = h ∙ ap (after_all operations) e

  pub tables-run :
      (operations : List Operation)
      → AreAdditions operations
      → (c d : C) → run ddl operations c ≡ ok d
      → ddl.tables d ≡ after_all operations (ddl.tables c)
  unfolding run after_all
  tables-run [] additions c d h = ap ddl.tables (sym (ok-injective h))
  tables-run (create_table t ∷ operations) additions c d h =
      let (x, applied, rest) = >>=-eq-ok (ddl.apply (create_table t) c) (run ddl operations) h in
      tables_of_rest (create_table t) operations c x d (laws.tables-create_table t c x applied)
        (tables-run operations additions x d rest)
  tables-run (create_index i ∷ operations) additions c d h =
      let (x, applied, rest) = >>=-eq-ok (ddl.apply (create_index i) c) (run ddl operations) h in
      tables_of_rest (create_index i) operations c x d (laws.tables-create_index i c x applied)
        (tables-run operations additions x d rest)
  tables-run (drop_constraint name table ∷ operations) additions c d h =
      let (x, applied, rest) =
        >>=-eq-ok (ddl.apply (drop_constraint name table) c) (run ddl operations) h in
      tables_of_rest (drop_constraint name table) operations c x d
        (laws.tables-drop_constraint name table c x applied)
        (tables-run operations additions x d rest)
  tables-run (create_check_constraint name table check ∷ operations) additions c d h =
      let (x, applied, rest) =
        >>=-eq-ok (ddl.apply (create_check_constraint name table check) c) (run ddl operations) h in
      tables_of_rest (create_check_constraint name table check) operations c x d
        (laws.tables-create_check_constraint name table check c x applied)
        (tables-run operations additions x d rest)
  tables-run (bulk_insert table row ∷ operations) additions c d h =
      let (x, applied, rest) =
        >>=-eq-ok (ddl.apply (bulk_insert table row) c) (run ddl operations) h in
      tables_of_rest (bulk_insert table row) operations c x d
        (laws.tables-bulk_insert table row c x applied) (tables-run operations additions x d rest)
  tables-run (drop_table name ∷ operations) additions c d h = elim additions [ ]
  tables-run (drop_index name ∷ operations) additions c d h = elim additions [ ]

-- the tables that both upgrades make of an empty database
abbrev pub migrated : List Table
migrated = after_all (initial_upgrade ++ deleting_upgrade) []

documents_agree :
    (row : Row) → admits migrated (codes "documents") row ≡ admits declared (codes "documents") row
unfolding admits find_table table_admits after_all initial_upgrade deleting_upgrade altered
    without_check text_eq
documents_agree row = ground arith

chunks_agree :
    (row : Row) → admits migrated (codes "chunks") row ≡ admits declared (codes "chunks") row
unfolding admits find_table table_admits after_all initial_upgrade deleting_upgrade altered
    without_check text_eq
chunks_agree row = ground arith

jobs_agree :
    (row : Row)
    → admits migrated (codes "ingestion_jobs") row ≡ admits declared (codes "ingestion_jobs") row
unfolding admits find_table table_admits after_all initial_upgrade deleting_upgrade altered
    without_check text_eq
jobs_agree row = ground arith

revision_agree :
    (row : Row)
    → admits migrated (codes "corpus_revision") row ≡ admits declared (codes "corpus_revision") row
unfolding admits find_table table_admits after_all initial_upgrade deleting_upgrade altered
    without_check text_eq
revision_agree row = ground arith

others_agree :
    (name : Text) (row : Row)
    → text_eq name (codes "documents") ≡ false
    → text_eq name (codes "chunks") ≡ false
    → text_eq name (codes "ingestion_jobs") ≡ false
    → text_eq name (codes "corpus_revision") ≡ false
    → admits migrated name row ≡ admits declared name row
unfolding admits find_table after_all initial_upgrade deleting_upgrade altered
others_agree name row d c j r = ground arith

migrated-declared : (name : Text) (row : Row) → admits migrated name row ≡ admits declared name row
migrated-declared name row = elim (Bool-cases (text_eq name (codes "documents"))) [
  | inl e ↦ agree_at (codes "documents") e (documents_agree row)
  | inr d ↦ elim (Bool-cases (text_eq name (codes "chunks"))) [
    | inl e ↦ agree_at (codes "chunks") e (chunks_agree row)
    | inr c ↦ elim (Bool-cases (text_eq name (codes "ingestion_jobs"))) [
      | inl e ↦ agree_at (codes "ingestion_jobs") e (jobs_agree row)
      | inr j ↦ elim (Bool-cases (text_eq name (codes "corpus_revision"))) [
        | inl e ↦ agree_at (codes "corpus_revision") e (revision_agree row)
        | inr r ↦ others_agree name row d c j r
      ]
    ]
  ]
]
  where
    agree_at :
        (known : Text)
        → text_eq name known ≡ true
        → admits migrated known row ≡ admits declared known row
        → admits migrated name row ≡ admits declared name row
    agree_at known e h =
        subst (λ n. admits migrated n row ≡ admits declared n row)
          (sym (text_eq_sound name known e)) h

-- The tables that the upgrades of both revisions make of an empty database admit exactly the rows
-- that the declared tables admit.
pub upgrades-declared :
    {C : Type 0} (ddl : Ddl C)
    → DdlLaws ddl
    → (c d : C) → ddl.tables c ≡ []
    → run ddl (initial_upgrade ++ deleting_upgrade) c ≡ ok d
    → (name : Text) (row : Row) → admits (ddl.tables d) name row ≡ admits declared name row
unfolding initial_upgrade deleting_upgrade
upgrades-declared ddl laws c d empty h name row =
    let made = tables-run ddl laws (initial_upgrade ++ deleting_upgrade) tt c d h in
    ap (λ tables. admits tables name row)
      (made ∙ ap (after_all (initial_upgrade ++ deleting_upgrade)) empty)
    ∙ migrated-declared name row
