-- ===== src/Persistence/Memory.antt =====
-- A database in memory, for the tests: tables by key, and the keys in the order of writing. Nothing
-- fails to commit.
use enterprise_knowledge_sea.Common.{
  ℕ, ◌≡◌, ◌≢◌, refl, Option, none, some, Text, text_eq, List, [], ◌∷◌, ◌++◌, ◌==◌, if◌then◌else◌,
  arith, All, same_key, take, drop,
}
use enterprise_knowledge_sea.Persistence.Records.{DocumentRecord, ChunkRecord, IngestionJobRecord}
use enterprise_knowledge_sea.Persistence.Session.{Database, DatabaseLaws}

pub record Tables : Type 0 where
  pub documents : ℕ → Option DocumentRecord
  pub document_ids : List ℕ
  pub jobs : ℕ → Option IngestionJobRecord
  pub job_ids : List ℕ
  pub chunks : ℕ → List ChunkRecord
  pub corpus_revision : Option ℕ

abbrev pub no_rows : Tables
no_rows = record {
  documents = λ d. none;
  document_ids = [];
  jobs = λ j. none;
  job_ids = [];
  chunks = λ d. [];
  corpus_revision = some 0;
}

abbrev with_key : ℕ → List ℕ → List ℕ
with_key k [] = k ∷ []
with_key k (l ∷ more) = let rest = with_key k more in if l == k then l ∷ more else l ∷ rest

-- the rows of a table, by their keys
abbrev rows : {R : Type 0} → (ℕ → Option R) → List ℕ → List R
rows table [] = []
rows table (k ∷ more) =
    let rest = rows table more in elim (table k) [ none ↦ rest | some r ↦ r ∷ rest ]

abbrev with_hash : Text → List DocumentRecord → Option DocumentRecord
with_hash h [] = none
with_hash h (r ∷ more) = let rest = with_hash h more in if text_eq r.sha256 h then some r else rest

abbrev jobs_about : ℕ → List IngestionJobRecord → List IngestionJobRecord
jobs_about d [] = []
jobs_about d (r ∷ more) =
    let rest = jobs_about d more in if r.document_id == d then r ∷ rest else rest

abbrev chunks_about : ℕ → List ChunkRecord → List ChunkRecord
chunks_about d [] = []
chunks_about d (r ∷ more) =
    let rest = chunks_about d more in if r.document_id == d then r ∷ rest else rest

-- a job's row unless it is about the document
abbrev unless_about : ℕ → Option IngestionJobRecord → Option IngestionJobRecord
unless_about e none = none
unless_about e (some r) = if r.document_id == e then none else some r

abbrev pub memory : Database Tables
memory = record {
  find_document = λ d s. s.documents d;
  write_document = λ r s. record s {
    documents = λ d. if r.id == d then some r else s.documents d;
    document_ids = with_key r.id s.document_ids;
  };
  drop_document = λ e s. record s {
    documents = λ d. if e == d then none else s.documents d;
    jobs = λ j. unless_about e (s.jobs j);
    chunks = λ d. if e == d then [] else s.chunks d;
  };
  document_by_hash = λ h s. with_hash h (rows s.documents s.document_ids);
  page_of_documents = λ offset limit s. take limit (drop offset (rows s.documents s.document_ids));
  find_job = λ j s. s.jobs j;
  write_job = λ r s. record s {
    jobs = λ j. if r.id == j then some r else s.jobs j;
    job_ids = with_key r.id s.job_ids;
  };
  jobs_of = λ d s. jobs_about d (rows s.jobs s.job_ids);
  chunks_of = λ d s. s.chunks d;
  add_chunks = λ rs s. record s { chunks = λ d. s.chunks d ++ chunks_about d rs };
  drop_chunks = λ e s. record s { chunks = λ d. if e == d then [] else s.chunks d };
  revision = λ s. s.corpus_revision;
  write_revision = λ n s. record s { corpus_revision = some n };
  commit = λ s t. none;
}

chunks_about-own :
    (d : ℕ) (rs : List ChunkRecord) → All (λ r. r.document_id ≡ d) rs → chunks_about d rs ≡ rs
chunks_about-own d [] a = refl
chunks_about-own d (r ∷ rs) a = ground (arith, chunks_about-own d rs a.1)

own_rows :
    (d : ℕ) (mine rs : List ChunkRecord)
    → All (λ r. r.document_id ≡ d) rs
    → (if d == d then [] else mine) ++ chunks_about d rs ≡ rs
own_rows d mine rs a = rw (same_key d d [] mine refl) (chunks_about-own d rs a)

stays :
    (e : ℕ) (o : Option IngestionJobRecord) (r : IngestionJobRecord)
    → o ≡ some r
    → r.document_id ≢ e
    → unless_about e o ≡ some r
stays e none r h n = ground arith
stays e (some q) r h n = ground arith

stayed :
    (e : ℕ) (o : Option IngestionJobRecord) (r : IngestionJobRecord)
    → unless_about e o ≡ some r
    → (o ≡ some r) × (r.document_id ≢ e)
stayed e none r h = ground arith
stayed e (some q) r h = ground arith

pub memory_laws : DatabaseLaws memory
memory_laws = record {
  find_document-write = λ r d s. refl;
  find_document-drop = λ e d s. refl;
  find_document-write_job = λ r d s. refl;
  find_document-add_chunks = λ rs d s. refl;
  find_document-drop_chunks = λ e d s. refl;
  find_document-write_revision = λ n d s. refl;
  find_job-write = λ r j s. refl;
  find_job-write_document = λ r j s. refl;
  find_job-add_chunks = λ rs j s. refl;
  find_job-drop_chunks = λ e j s. refl;
  find_job-write_revision = λ n j s. refl;
  find_job-drop_other = λ e j r s h n. stays e (s.jobs j) r h n;
  find_job-drop_found = λ e j r s h. stayed e (s.jobs j) r h;
  revision-write = λ n s. refl;
  revision-write_document = λ r s. refl;
  revision-write_job = λ r s. refl;
  revision-add_chunks = λ rs s. refl;
  revision-drop_chunks = λ e s. refl;
  chunks_of-replace = λ d rs s a n. own_rows d (s.chunks d) rs a;
  chunks_of-write_document = λ r d s. refl;
  chunks_of-write_job = λ r d s. refl;
  chunks_of-write_revision = λ n d s. refl;
}
