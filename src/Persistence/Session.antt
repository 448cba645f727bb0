-- ===== src/Persistence/Session.antt =====
-- The database behind a SQLAlchemy session: tables that the repositories read and write, as an
-- interface over an abstract state. PostgreSQL and SQLAlchemy are not part of the repository.
use enterprise_knowledge_sea.Common.{
  All, suc, pos, ℕ, ◌≡◌, ◌≢◌, Option, none, some, Text, List, [], ◌∷◌, ◌==◌, if◌then◌else◌, arith,
}
use enterprise_knowledge_sea.Errors.{Error, Result, ok, err}
use enterprise_knowledge_sea.Persistence.Records.{DocumentRecord, ChunkRecord, IngestionJobRecord}

pub record Database (S : Type 0) : Type 0 where
  -- `session.get(DocumentRecord, id)`; `session.add`, or the writes to a loaded row;
  -- `session.delete`, with the cascades of the schema; the rows with a hash
  pub find_document : ℕ → S → Option DocumentRecord
  pub write_document : DocumentRecord → S → S
  pub drop_document : ℕ → S → S
  pub document_by_hash : Text → S → Option DocumentRecord
  -- the page of documents, newest first
  pub page_of_documents : ℕ → ℕ → S → List DocumentRecord
  -- the same for ingestion jobs, and the jobs of a document, oldest first
  pub find_job : ℕ → S → Option IngestionJobRecord
  pub write_job : IngestionJobRecord → S → S
  pub jobs_of : ℕ → S → List IngestionJobRecord
  -- the chunks of a document, by ordinal
  pub chunks_of : ℕ → S → List ChunkRecord
  pub add_chunks : List ChunkRecord → S → S
  pub drop_chunks : ℕ → S → S
  -- the singleton row of `corpus_revision`
  pub revision : S → Option ℕ
  pub write_revision : ℕ → S → S
  -- what flush and commit raise for a session that began at the first state and holds the second:
  -- a violated constraint, a lost connection
  pub commit : S → S → Option Error

-- Rows with the ordinals from a number on.
abbrev pub AreNumbered : ℕ → List ChunkRecord → Type 0
AreNumbered n [] = Unit
AreNumbered n (r ∷ rs) = (r.ordinal ≡ pos n) × AreNumbered (suc n) rs

-- What is relied on: a row that is written is read back under its key, and the tables are apart
-- but for the cascade of a deleted document.
pub record DatabaseLaws {S : Type 0} (db : Database S) : Type 0 where
  pub find_document-write :
      (r : DocumentRecord) (d : ℕ) (s : S)
      → db.find_document d (db.write_document r s)
        ≡ (if r.id == d then some r else db.find_document d s)
  pub find_document-drop :
      (e d : ℕ) (s : S)
      → db.find_document d (db.drop_document e s) ≡ (if e == d then none else db.find_document d s)
  pub find_document-write_job :
      (r : IngestionJobRecord) (d : ℕ) (s : S)
      → db.find_document d (db.write_job r s) ≡ db.find_document d s
  pub find_document-add_chunks :
      (rs : List ChunkRecord) (d : ℕ) (s : S)
      → db.find_document d (db.add_chunks rs s) ≡ db.find_document d s
  pub find_document-drop_chunks :
      (e d : ℕ) (s : S) → db.find_document d (db.drop_chunks e s) ≡ db.find_document d s
  pub find_document-write_revision :
      (n d : ℕ) (s : S) → db.find_document d (db.write_revision n s) ≡ db.find_document d s
  pub find_job-write :
      (r : IngestionJobRecord) (j : ℕ) (s : S)
      → db.find_job j (db.write_job r s) ≡ (if r.id == j then some r else db.find_job j s)
  pub find_job-write_document :
      (r : DocumentRecord) (j : ℕ) (s : S) → db.find_job j (db.write_document r s) ≡ db.find_job j s
  pub find_job-add_chunks :
      (rs : List ChunkRecord) (j : ℕ) (s : S) → db.find_job j (db.add_chunks rs s) ≡ db.find_job j s
  pub find_job-drop_chunks :
      (e j : ℕ) (s : S) → db.find_job j (db.drop_chunks e s) ≡ db.find_job j s
  pub find_job-write_revision :
      (n j : ℕ) (s : S) → db.find_job j (db.write_revision n s) ≡ db.find_job j s
  -- the cascade: a job of another document stays, a job of the document is gone
  pub find_job-drop_other :
      (e j : ℕ) (r : IngestionJobRecord) (s : S)
      → db.find_job j s ≡ some r
      → r.document_id ≢ e
      → db.find_job j (db.drop_document e s) ≡ some r
  pub find_job-drop_found :
      (e j : ℕ) (r : IngestionJobRecord) (s : S)
      → db.find_job j (db.drop_document e s) ≡ some r
      → (db.find_job j s ≡ some r) × (r.document_id ≢ e)
  pub revision-write : (n : ℕ) (s : S) → db.revision (db.write_revision n s) ≡ some n
  pub revision-write_document :
      (r : DocumentRecord) (s : S) → db.revision (db.write_document r s) ≡ db.revision s
  pub revision-write_job :
      (r : IngestionJobRecord) (s : S) → db.revision (db.write_job r s) ≡ db.revision s
  pub revision-add_chunks :
      (rs : List ChunkRecord) (s : S) → db.revision (db.add_chunks rs s) ≡ db.revision s
  pub revision-drop_chunks : (e : ℕ) (s : S) → db.revision (db.drop_chunks e s) ≡ db.revision s
  -- rows of one document, in the order of their ordinals, that replace its rows are what is listed
  pub chunks_of-replace :
      (d : ℕ) (rs : List ChunkRecord) (s : S)
      → All (λ r. r.document_id ≡ d) rs
      → AreNumbered 0 rs
      → db.chunks_of d (db.add_chunks rs (db.drop_chunks d s)) ≡ rs
  pub chunks_of-write_document :
      (r : DocumentRecord) (d : ℕ) (s : S)
      → db.chunks_of d (db.write_document r s) ≡ db.chunks_of d s
  pub chunks_of-write_job :
      (r : IngestionJobRecord) (d : ℕ) (s : S)
      → db.chunks_of d (db.write_job r s) ≡ db.chunks_of d s
  pub chunks_of-write_revision :
      (n d : ℕ) (s : S) → db.chunks_of d (db.write_revision n s) ≡ db.chunks_of d s

-- The body of a transaction: what it returns with the session's state, or what it raises.
abbrev pub Tx : Type 0 → Type 0 → Type 0
Tx S A = S → Result (A × S)

module _ {S : Type 0} where
  infixl 5 ◌>>=◌ ◌>>◌
  abbrev pub ◌>>=◌ : {A B : Type 0} → Tx S A → (A → Tx S B) → Tx S B
  ◌>>=◌ m f s = elim (m s) [ err e ↦ err e | ok (a, t) ↦ f a t ]

  abbrev pub ◌>>◌ : {A B : Type 0} → Tx S A → Tx S B → Tx S B
  m >> k = m >>= λ _. k

  abbrev pub pure : {A : Type 0} → A → Tx S A
  pure a s = ok (a, s)

  abbrev pub raise : {A : Type 0} → Error → Tx S A
  raise e s = err e

  abbrev pub lift : {A : Type 0} → Result A → Tx S A
  lift (ok a) s = ok (a, s)
  lift (err e) s = err e

  abbrev pub modify : (S → S) → Tx S (Unit {0})
  modify f s = ok (tt, f s)

  -- `with sessions.transaction() as session: body`: committed at the end of the block, rolled
  -- back where the body or the commit raises. It takes no other transaction to commit between its
  -- first read and its commit; READ COMMITTED, without locks on the rows, allows one.
  unfoldable pub transaction : {A : Type 0} → Database S → Tx S A → S → Result A × S
  transaction db body s = elim (body s) [
    | err e ↦ (err e, s)
    | ok (a, t) ↦ elim (db.commit s t) [ none ↦ (ok a, t) | some e ↦ (err e, s) ]
  ]

  -- A transaction that returned had a body that returned.
  pub transaction_committed :
      {A : Type 0} (db : Database S) (body : Tx S A) (s t : S) (a : A)
      → transaction db body s ≡ (ok a, t)
      → body s ≡ ok (a, t)
  unfolding transaction
  transaction_committed db body s t a h = ground arith
