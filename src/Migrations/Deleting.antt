-- ===== src/Migrations/Deleting.antt =====
-- migrations/versions/20260730_02_add_deleting_status.py
use enterprise_knowledge_sea.Common.{
  Bool, false, Text, codes, text_eq, List, [], ◌∷◌, ◌++◌, if◌then◌else◌,
}
use enterprise_knowledge_sea.Persistence.Schema.{Value, text_value, Row, column_in}
use enterprise_knowledge_sea.Migrations.{Operation, drop_constraint, create_check_constraint}

-- `ORIGINAL_STATUSES`
abbrev pub original_statuses : List Text
original_statuses =
    codes "uploaded" ∷ codes "queued" ∷ codes "processing" ∷ codes "ready" ∷ codes "failed" ∷ []

-- `DELETION_STATUSES`
abbrev pub deletion_statuses : List Text
deletion_statuses = original_statuses ++ (codes "deleting" ∷ [])

abbrev status_in : List Text → List Operation
status_in values =
    drop_constraint (codes "ck_documents_status") (codes "documents")
    ∷ create_check_constraint (codes "ck_documents_status") (codes "documents")
        (column_in (codes "status") values)
    ∷ []

-- `upgrade`
unfoldable pub deleting_upgrade : List Operation
deleting_upgrade = status_in deletion_statuses

-- the operations of `downgrade`, after its UPDATE
unfoldable pub deleting_downgrade : List Operation
deleting_downgrade = status_in original_statuses

-- `WHERE status = 'deleting'`
abbrev pub is_deleting : Value → Bool
is_deleting (text_value t) = text_eq t (codes "deleting")
is_deleting _ = false

-- the UPDATE of `downgrade`, on a row of documents
unfoldable pub interrupted : Row → Row
interrupted row column =
    if is_deleting (row (codes "status"))
    then (if text_eq column (codes "status")
        then text_value (codes "failed")
        else (if text_eq column (codes "failure_code")
            then text_value (codes "deletion_interrupted")
            else row column))
    else row column
