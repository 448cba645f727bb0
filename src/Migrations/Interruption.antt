-- ===== src/Migrations/Interruption.antt =====
-- The downgrade of the second revision, with the rows of documents that it finds.
use enterprise_knowledge_sea.Common.{
  ◌≡◌, refl, sym, subst, ap, ◌∙◌, Bool, true, false, ◌&&◌, ◌||◌, not, Bool-cases, Text, codes,
  text_eq, List, [], ◌∷◌, ◌++◌, ◌⊎◌, inl, inr, arith,
}
use enterprise_knowledge_sea.Errors.{ok}
use enterprise_knowledge_sea.Platform.{surrogate}
use enterprise_knowledge_sea.Persistence.Schema.{
  Value, text_value, Row, Table, column_in, table_admits, check_admits, column_admits, find_table,
  admits, truth, fits, storable, Column, all_of, matches_sha256, number_at_least,
}
use enterprise_knowledge_sea.Persistence.Schema.Models.{failure_state, media_type_values, documents}
use enterprise_knowledge_sea.Migrations.{Ddl, DdlLaws, altered, without_check, run}
use enterprise_knowledge_sea.Migrations.Initial.{initial_upgrade}
use enterprise_knowledge_sea.Migrations.Deleting.{
  deleting_upgrade, deleting_downgrade, original_statuses, deletion_statuses, is_deleting,
  interrupted,
}
use enterprise_knowledge_sea.Migrations.Agreement.{after_all, migrated, tables-run}

-- the tables after the downgrade
abbrev restored : List Table
restored = after_all deleting_downgrade migrated

interrupted_same :
    (row : Row)
    → is_deleting (row (codes "status")) ≡ false
    → (column : Text) → interrupted row column ≡ row column
unfolding interrupted
interrupted_same row h column = ground arith

interrupted_other :
    (row : Row) (column : Text)
    → text_eq column (codes "status") ≡ false
    → text_eq column (codes "failure_code") ≡ false
    → interrupted row column ≡ row column
unfolding interrupted
interrupted_other row column s f = ground arith

module _ (row : Row) (h : is_deleting (row (codes "status")) ≡ true) where
  interrupted_status : interrupted row (codes "status") ≡ text_value (codes "failed")
  unfolding interrupted text_eq
  interrupted_status = ground arith

  interrupted_code :
      interrupted row (codes "failure_code") ≡ text_value (codes "deletion_interrupted")
  unfolding interrupted text_eq
  interrupted_code = ground arith

-- A status other than deleting is admitted by both lists of statuses, or by neither.
status_kept :
    (v : Value)
    → is_deleting v ≡ false
    → check_admits
        (λ c. v)
        (codes "ck_documents_status", column_in (codes "status") original_statuses)
      ≡ check_admits
          (λ c. v)
          (codes "ck_documents_status", column_in (codes "status") deletion_statuses)
unfolding check_admits truth
status_kept (text_value t) h = ground arith
status_kept _ h = refl

status_kept_in :
    (row : Row)
    → is_deleting (row (codes "status")) ≡ false
    → check_admits row (codes "ck_documents_status", column_in (codes "status") original_statuses)
      ≡ check_admits row (codes "ck_documents_status", column_in (codes "status") deletion_statuses)
unfolding check_admits truth
status_kept_in row h = status_kept (row (codes "status")) h

kept_row_readmitted :
    (row : Row)
    → is_deleting (row (codes "status")) ≡ false
    → admits migrated (codes "documents") row ≡ true
    → admits restored (codes "documents") row ≡ true
unfolding admits find_table table_admits after_all initial_upgrade deleting_upgrade
    deleting_downgrade altered without_check text_eq
kept_row_readmitted row h a = ground (arith, status_kept_in row h)

-- A column takes the texts that the UPDATE stores in it.
survives : Column → Bool
survives c =
    (not (text_eq c.name (codes "status")) || fits c.type (text_value (codes "failed")))
    && (not (text_eq c.name (codes "failure_code"))
        || fits c.type (text_value (codes "deletion_interrupted")))

interrupted_column :
    (row : Row) (c : Column)
    → is_deleting (row (codes "status")) ≡ true
    → survives c ≡ true
    → column_admits row c ≡ true
    → column_admits (interrupted row) c ≡ true
unfolding survives column_admits interrupted
interrupted_column row c h s a = elim (Bool-cases (text_eq c.name (codes "status"))) [
  | inl e ↦ ground arith
  | inr e ↦ elim (Bool-cases (text_eq c.name (codes "failure_code"))) [
    | inl f ↦ ground arith
    | inr f ↦ ground arith
  ]
]

interrupted_columns :
    (row : Row) (columns : List Column)
    → is_deleting (row (codes "status")) ≡ true
    → all_of survives columns ≡ true
    → all_of (column_admits row) columns ≡ true
    → all_of (column_admits (interrupted row)) columns ≡ true
interrupted_columns row [] h s a = refl
interrupted_columns row (c ∷ columns) h s a =
    ground (arith, interrupted_column row c h, interrupted_columns row columns h)

changed_row_coded :
    (row : Row)
    → is_deleting (row (codes "status")) ≡ true
    → check_admits (interrupted row) (codes "ck_documents_failure_state", failure_state) ≡ true
unfolding check_admits truth text_eq
changed_row_coded row h = rw (interrupted_status row h) (rw (interrupted_code row h) refl)

interrupted_in_statuses :
    (row : Row)
    → is_deleting (row (codes "status")) ≡ true
    → check_admits
        (interrupted row)
        (codes "ck_documents_status", column_in (codes "status") original_statuses)
      ≡ true
unfolding check_admits truth text_eq
interrupted_in_statuses row h = rw (interrupted_status row h) refl

module _ (row : Row) where
  interrupted_media_type :
      check_admits
        (interrupted row)
        (codes "ck_documents_media_type", column_in (codes "media_type") media_type_values)
      ≡ check_admits row
          (codes "ck_documents_media_type", column_in (codes "media_type") media_type_values)
  unfolding check_admits truth text_eq
  interrupted_media_type = rw (interrupted_other row (codes "media_type") refl refl) refl

  interrupted_sha256 :
      check_admits (interrupted row) (codes "ck_documents_sha256", matches_sha256 (codes "sha256"))
      ≡ check_admits row (codes "ck_documents_sha256", matches_sha256 (codes "sha256"))
  unfolding check_admits truth text_eq
  interrupted_sha256 = rw (interrupted_other row (codes "sha256") refl refl) refl

  interrupted_size :
      check_admits
        (interrupted row)
        (codes "ck_documents_size_bytes", number_at_least (codes "size_bytes") 0)
      ≡ check_admits row (codes "ck_documents_size_bytes", number_at_least (codes "size_bytes") 0)
  unfolding check_admits truth text_eq
  interrupted_size = rw (interrupted_other row (codes "size_bytes") refl refl) refl

documents_survive : all_of survives documents.columns ≡ true
unfolding survives fits text_eq storable surrogate
documents_survive = refl

changed_row_readmitted :
    (row : Row)
    → is_deleting (row (codes "status")) ≡ true
    → admits migrated (codes "documents") row ≡ true
    → admits restored (codes "documents") (interrupted row) ≡ true
unfolding admits find_table table_admits after_all initial_upgrade deleting_upgrade
    deleting_downgrade altered without_check text_eq
changed_row_readmitted row h a =
    let columns = interrupted_columns row documents.columns h documents_survive in
    let state = changed_row_coded row h in
    let statuses = interrupted_in_statuses row h in
    let media = interrupted_media_type row in
    let hash = interrupted_sha256 row in let size = interrupted_size row in ground (arith, columns)

-- Where the downgrade of the second revision returns after both upgrades of an empty database, its
-- UPDATE has made each row of documents that was admitted into one that the restored constraints
-- admit, and a row that it changed was deleting.
pub deleting_downgrade-admits :
    {C : Type 0} (ddl : Ddl C)
    → DdlLaws ddl
    → (c d e : C) → ddl.tables c ≡ []
    → run ddl (initial_upgrade ++ deleting_upgrade) c ≡ ok d
    → run ddl deleting_downgrade d ≡ ok e
    → (row : Row) → admits (ddl.tables d) (codes "documents") row ≡ true
    → (admits (ddl.tables e) (codes "documents") (interrupted row) ≡ true)
      × ((is_deleting (row (codes "status")) ≡ true) ⊎ (interrupted row ≡ row))
unfolding initial_upgrade deleting_upgrade deleting_downgrade
deleting_downgrade-admits ddl laws c d e empty up down row a =
    let made =
      tables-run ddl laws (initial_upgrade ++ deleting_upgrade) tt c d up
      ∙ ap (after_all (initial_upgrade ++ deleting_upgrade)) empty in
    let left =
      tables-run ddl laws deleting_downgrade tt d e down ∙ ap (after_all deleting_downgrade) made in
    let before = subst (λ tables. admits tables (codes "documents") row ≡ true) made a in
    let back = λ (r : Row) (h : admits restored (codes "documents") r ≡ true).
      subst (λ tables. admits tables (codes "documents") r ≡ true) (sym left) h in
    elim (Bool-cases (is_deleting (row (codes "status")))) [
      | inl h ↦ (back (interrupted row) (changed_row_readmitted row h before), inl h)
      | inr h ↦
          let same : interrupted row ≡ row = λ i column. interrupted_same row h column i in
          (
            subst (λ r. admits (ddl.tables e) (codes "documents") r ≡ true) (sym same)
                (back row (kept_row_readmitted row h before)),
            inr same,
          )
    ]
