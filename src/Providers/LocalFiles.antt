-- ===== src/Providers/LocalFiles.antt =====
-- class LocalDocumentStore of knowledge_search/providers/local_files.py. The file system is the
-- operating system's, the path that a key resolves to below the root is `pathlib`'s, and the reads
-- of an upload are those of its stream.
pub mod Paths
pub mod Saving
pub mod Outcomes
pub mod RoundTrip
use enterprise_knowledge_sea.Common.{
  ℕ, ◌+◌, Bool, true, false, ◌||◌, ◌&&◌, not, Option, none, some, Text, codes, text_eq, List, [],
  ◌∷◌, ◌++◌, length, if◌then◌else◌, ℤ, pos, ltb_ℤ, ◌==◌,
}
use enterprise_knowledge_sea.Status.{DocumentMediaType, pdf, markdown, text}
use enterprise_knowledge_sea.Errors.{
  Error, Result, ok, err, ingestion_error, invalid_storage_key, storage_conflict, file_too_large,
  empty_upload, file_exists_error, os_error,
}
use enterprise_knowledge_sea.Ingestion.Models.{StoredDocument}

abbrev pub Bytes : Type 0
Bytes = List ℕ

-- The components of a resolved path.
abbrev pub FilePath : Type 0
FilePath = List Text

-- A file system over a state: what each call returns or raises, and the state it leaves. `read` is
-- the content that a file has.
pub record FileSystem (F : Type 0) : Type 0 where
  -- `path.mkdir(parents=True, exist_ok=False)`
  pub make_directory : FilePath → F → Result (Unit {0}) × F
  -- `path.open("xb")`, `write`, and `flush` with `os.fsync`
  pub create : FilePath → F → Result (Unit {0}) × F
  pub append : FilePath → Bytes → F → Result (Unit {0}) × F
  pub sync : FilePath → F → Result (Unit {0}) × F
  -- `path.replace(target)`, `path.unlink(missing_ok=True)` and `path.rmdir()`
  pub replace : FilePath → FilePath → F → Result (Unit {0}) × F
  pub unlink : FilePath → F → Result (Unit {0}) × F
  pub remove_directory : FilePath → F → Result (Unit {0}) × F
  pub read : FilePath → F → Option Bytes

-- The stream of an upload: what `seek(0)` and the successive reads of it do.
pub record Upload : Type 0 where
  pub seek : Result (Unit {0})
  pub reads : List (Result Bytes)

-- The root, `(root / key).resolve()`, the text of an id and the digest of bytes.
pub record Store : Type 0 where
  pub root : FilePath
  pub resolve : Text → FilePath
  pub uuid_text : ℕ → Text
  pub sha256_hex : Bytes → Text

-- `MEDIA_SUFFIXES`
unfoldable pub media_suffix : DocumentMediaType → Text
media_suffix pdf = codes ".pdf"
media_suffix markdown = codes ".md"
media_suffix text = codes ".txt"

-- `path.is_relative_to(root)`
unfoldable pub is_relative_to : FilePath → FilePath → Bool
is_relative_to path [] = true
is_relative_to [] (a ∷ root) = false
is_relative_to (b ∷ path) (a ∷ root) = text_eq b a && is_relative_to path root

unfoldable pub path_eq : FilePath → FilePath → Bool
path_eq [] [] = true
path_eq (a ∷ p) (b ∷ q) = text_eq a b && path_eq p q
path_eq _ _ = false

-- `path.parent`
unfoldable pub parent : FilePath → FilePath
parent [] = []
parent (a ∷ []) = []
parent (a ∷ b ∷ path) = a ∷ parent (b ∷ path)

-- `path.with_suffix(f"{path.suffix}.uploading")`: the name, and the text after it
unfoldable pub uploading : FilePath → FilePath
uploading [] = []
uploading (a ∷ []) = (a ++ codes ".uploading") ∷ []
uploading (a ∷ b ∷ path) = a ∷ uploading (b ∷ path)

-- `_resolve_key`
unfoldable pub resolve_key : Store → Text → Result FilePath
resolve_key store storage_key =
    let candidate = store.resolve storage_key in
    if not (is_relative_to candidate store.root) || path_eq candidate store.root
    then err (ingestion_error invalid_storage_key)
    else ok candidate

-- `with suppress(OSError)` around a call, before the rest
unfoldable pub suppressing_os_error {ℓ} : {A : Type ℓ} → Result (Unit {0}) → Result A → Result A
suppressing_os_error (ok _) rest = rest
suppressing_os_error (err os_error) rest = rest
suppressing_os_error (err file_exists_error) rest = rest
suppressing_os_error (err e) rest = err e

module _ {F : Type 0} (fs : FileSystem F) where
  -- the `while` loop and the end of the `with`: the size, and the bytes that the digest has seen
  unfoldable pub copy_blocks :
      ℤ → FilePath → ℕ → Bytes → List (Result Bytes) → F → Result (ℕ × Bytes) × F
  copy_blocks max_bytes partial size seen [] files =
      let (synced, files1) = fs.sync partial files in
      elim synced [ err e ↦ (err e, files1) | ok _ ↦ (ok (size, seen), files1) ]
  copy_blocks max_bytes partial size seen (err e ∷ more) files = (err e, files)
  copy_blocks max_bytes partial size seen (ok [] ∷ more) files =
      let (synced, files1) = fs.sync partial files in
      elim synced [ err e ↦ (err e, files1) | ok _ ↦ (ok (size, seen), files1) ]
  copy_blocks max_bytes partial size seen (ok (b ∷ bs) ∷ more) files =
      let size1 = size + length (b ∷ bs) in
      let (written, files1) = fs.append partial (b ∷ bs) files in
      let rest = copy_blocks max_bytes partial size1 (seen ++ (b ∷ bs)) more files1 in
      if ltb_ℤ max_bytes (pos size1)
      then (err (ingestion_error file_too_large), files)
      else elim written [ err e ↦ (err e, files1) | ok _ ↦ rest ]

  -- the `try` block of `save`
  unfoldable pub write_upload :
      ℤ → FilePath → FilePath → List (Result Bytes) → F → Result (ℕ × Bytes) × F
  write_upload max_bytes target partial reads files =
      let (created, files1) = fs.create partial files in
      elim created [
        | err e ↦ (err e, files1)
        | ok _ ↦
            let (copied, files2) = copy_blocks max_bytes partial 0 [] reads files1 in
            elim copied [
              | err e ↦ (err e, files2)
              | ok (size, seen) ↦
                  if size == 0
                  then (err (ingestion_error empty_upload), files2)
                  else let (replaced, files3) = fs.replace partial target files2 in
                    elim replaced [ err e ↦ (err e, files3) | ok _ ↦ (ok (size, seen), files3) ]
            ]
      ]

  -- the `except` block of `save`
  unfoldable pub abandon_upload : {A : Type 0} → FilePath → FilePath → Error → F → Result A × F
  abandon_upload target partial e files =
      let (unlinked, files1) = fs.unlink partial files in
      let (removed, files2) = fs.remove_directory (parent target) files1 in
      elim unlinked [
        | err x ↦ (err x, files1)
        | ok _ ↦ (suppressing_os_error removed (err e), files2)
      ]

  module _ (store : Store) where
    -- `save` below the directory that it has made
    unfoldable pub save_in_directory : Text → FilePath → Upload → ℤ → F → Result StoredDocument × F
    save_in_directory storage_key target upload max_bytes files =
        let partial = uploading target in
        let (written, files1) = write_upload max_bytes target partial upload.reads files in
        elim upload.seek [
          | err e ↦ (err e, files)
          | ok _ ↦ elim written [
            | err e ↦ abandon_upload target partial e files1
            | ok (size, seen) ↦ (
              ok (record {
                storage_key = storage_key;
                sha256 = store.sha256_hex seen;
                size_bytes = pos size;
              }),
              files1,
            )
          ]
        ]

    unfoldable pub storage_key_of : ℕ → DocumentMediaType → Text
    storage_key_of document_id media_type =
        store.uuid_text document_id ++ (codes "/source" ++ media_suffix media_type)

    -- `save`
    unfoldable pub save : ℕ → DocumentMediaType → Upload → ℤ → F → Result StoredDocument × F
    save document_id media_type upload max_bytes files =
        let storage_key = storage_key_of document_id media_type in
        elim (resolve_key store storage_key) [
          | err e ↦ (err e, files)
          | ok target ↦
              let (made, files1) = fs.make_directory (parent target) files in
              elim made [
                | err file_exists_error ↦ (err (ingestion_error storage_conflict), files1)
                | err e ↦ (err e, files1)
                | ok _ ↦ save_in_directory storage_key target upload max_bytes files1
              ]
        ]

    -- `open`, for the content that is read
    unfoldable pub open_document : Text → F → Result Bytes
    open_document storage_key files = elim (resolve_key store storage_key) [
      | err e ↦ err e
      | ok path ↦ elim (fs.read path files) [ none ↦ err os_error | some content ↦ ok content ]
    ]

    -- `delete`
    unfoldable pub delete : Text → F → Result (Unit {0}) × F
    delete storage_key files = elim (resolve_key store storage_key) [
      | err e ↦ (err e, files)
      | ok path ↦
          let (unlinked, files1) = fs.unlink path files in
          let (removed, files2) = fs.remove_directory (parent path) files1 in
          elim unlinked [
            | err e ↦ (err e, files1)
            | ok _ ↦ (suppressing_os_error removed (ok tt), files2)
          ]
    ]
