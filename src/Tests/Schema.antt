-- ===== src/Tests/Schema.antt =====
-- The migrations on a database in memory, and rows of valid values.
use enterprise_knowledge_sea.Common.{
  ◌≡◌, refl, sym, ap, Text, true, codes, text_eq, List, [], ◌∷◌, ◌++◌, ◌⊎◌, if◌then◌else◌, arith,
  none,
}
use enterprise_knowledge_sea.Errors.{Result, ok, err, other_error, ok-injective}
use enterprise_knowledge_sea.Persistence.Schema.{
  Row, Value, Table, admits, find_table, table_admits, column_admits, check_admits, truth, fits,
  storable,
}
use enterprise_knowledge_sea.Persistence.Schema.Models.{declared}
use enterprise_knowledge_sea.Migrations.{
  Index, Operation, create_table, create_index, drop_table, drop_index, drop_constraint,
  create_check_constraint, bulk_insert, Ddl, DdlLaws, altered, without_check, run,
}
use enterprise_knowledge_sea.Migrations.Initial.{initial_upgrade}
use enterprise_knowledge_sea.Migrations.Deleting.{
  deleting_upgrade, deleting_downgrade, is_deleting, interrupted,
}
use enterprise_knowledge_sea.Migrations.Agreement.{upgrades-declared}
use enterprise_knowledge_sea.Migrations.Interruption.{deleting_downgrade-admits}
use enterprise_knowledge_sea.Status.{
  deleting, document_status_eq, document_status_value, media_type_value,
}
use enterprise_knowledge_sea.Domain.Checks.{is_sha256}
use enterprise_knowledge_sea.Platform.{surrogate}
use enterprise_knowledge_sea.Domain.Locator
use enterprise_knowledge_sea.Domain.Chunk
use enterprise_knowledge_sea.Domain.Chunk.{Chunk}
use enterprise_knowledge_sea.Persistence.Records.{
  document_to_record, job_to_record, chunk_to_record,
}
use enterprise_knowledge_sea.Persistence.Schema.Rows.{document_row, chunk_row, job_row}
use enterprise_knowledge_sea.Persistence.Schema.Admitted.{valid_rows_admitted}
use enterprise_knowledge_sea.Tests.{document, document-IsValid, running_job, running_job-IsValid}
use enterprise_knowledge_sea.Tests.Domain.{chunk, chunk_checked, locator_checked}

abbrev Memory : Type 0
Memory = List Table × List Index × List (Text × List (Text × Value))

-- tables, indexes and rows; only the newest table and the newest index can be dropped
abbrev apply : Operation → Memory → Result Memory
apply (create_table t) (tables, indexes, rows) = ok (t ∷ tables, indexes, rows)
apply (create_index i) (tables, indexes, rows) = ok (tables, i ∷ indexes, rows)
apply (drop_table name) ([], indexes, rows) = err other_error
apply (drop_table name) (t ∷ tables, indexes, rows) =
    if text_eq name t.name then ok (tables, indexes, rows) else err other_error
apply (drop_index name) (tables, [], rows) = err other_error
apply (drop_index name) (tables, i ∷ indexes, rows) =
    if text_eq name i.name then ok (tables, indexes, rows) else err other_error
apply (drop_constraint name table) (tables, indexes, rows) =
    ok (altered table (without_check name) tables, indexes, rows)
apply (create_check_constraint name table check) (tables, indexes, rows) =
    ok (altered table (λ checks. (name, check) ∷ checks) tables, indexes, rows)
apply (bulk_insert table row) (tables, indexes, rows) = ok (tables, indexes, (table, row) ∷ rows)

abbrev memory : Ddl Memory
memory = record { apply = apply; tables = λ c. c.0 }

memory_laws : DdlLaws memory
memory_laws = record {
  tables-create_table = λ t c d h. sym (ap (λ x. x.0) (ok-injective h));
  tables-create_index = λ i c d h. sym (ap (λ x. x.0) (ok-injective h));
  tables-drop_constraint = λ name table c d h. sym (ap (λ x. x.0) (ok-injective h));
  tables-create_check_constraint = λ name table check c d h. sym (ap (λ x. x.0) (ok-injective h));
  tables-bulk_insert = λ table row c d h. sym (ap (λ x. x.0) (ok-injective h));
}

abbrev empty : Memory
empty = ([], [], [])

-- the database after both upgrades, and after the downgrade of the second one
abbrev made : Result Memory → Memory
made (ok c) = c
made (err e) = empty

abbrev second : Memory
second = made (run memory (initial_upgrade ++ deleting_upgrade) empty)

abbrev third : Memory
third = made (run memory deleting_downgrade second)

second_made : run memory (initial_upgrade ++ deleting_upgrade) empty ≡ ok second
unfolding run initial_upgrade deleting_upgrade altered without_check
second_made = refl

third_made : run memory deleting_downgrade second ≡ ok third
unfolding run initial_upgrade deleting_upgrade deleting_downgrade altered without_check
third_made = refl

-- a row of documents that is deleting
abbrev leaving : Row
leaving = document_row (document_to_record (document deleting 4 none))

leaving_admitted : admits second.0 (codes "documents") leaving ≡ true
unfolding admits find_table table_admits column_admits check_admits truth fits storable surrogate
    text_eq is_sha256 document_row document_to_record document_status_value media_type_value run
    initial_upgrade deleting_upgrade altered without_check
leaving_admitted = refl

upgrades-declared_example :
    admits second.0 (codes "documents") leaving ≡ admits declared (codes "documents") leaving
upgrades-declared_example =
    upgrades-declared memory memory_laws empty second refl second_made (codes "documents") leaving

deleting_downgrade-admits_example :
    (admits third.0 (codes "documents") (interrupted leaving) ≡ true)
    × ((is_deleting (leaving (codes "status")) ≡ true) ⊎ (interrupted leaving ≡ leaving))
deleting_downgrade-admits_example =
    deleting_downgrade-admits memory memory_laws empty second third refl second_made third_made
      leaving leaving_admitted

valid_rows_admitted_example :
    (admits declared
        (codes "documents")
        (document_row (document_to_record (document deleting 4 none)))
      ≡ true)
    × (admits declared (codes "chunks") (chunk_row (λ text. true) (chunk_to_record chunk)) ≡ true)
    × (admits declared (codes "ingestion_jobs") (job_row (job_to_record running_job)) ≡ true)
unfolding document_status_eq storable surrogate
valid_rows_admitted_example =
    valid_rows_admitted (λ text. true) (document deleting 4 none) chunk running_job
      (document-IsValid deleting 4 refl (omega arith))
      (record {
        name = omega arith;
        key = omega arith;
        name_storable = refl;
        key_storable = refl;
        size = refl;
        code = tt;
      })
      (Chunk.IsValid-post_init chunk chunk chunk_checked).0
      (Locator.IsValid-post_init chunk.locator locator_checked).0
      (record {
        text = refl;
        path = refl;
        indexed = refl;
        ordinal = refl;
        tokens = refl;
        page = tt;
        start = refl;
        end = refl;
      })
      running_job-IsValid (record { attempts = refl; code = tt })
