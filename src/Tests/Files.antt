-- ===== src/Tests/Files.antt =====
-- The document store over a disk in memory.
use enterprise_knowledge_sea.Common.{
  ◌⊎◌, ◌≡◌, ◌≢◌, refl, Bool, true, false, ◌||◌, ◌&&◌, not, Option, none, some, codes, text_eq, [],
  ◌∷◌, ◌++◌, if◌then◌else◌, pos, arith, ap, sym, Bool-cases, inl, inr,
}
use enterprise_knowledge_sea.Status.{markdown}
use enterprise_knowledge_sea.Errors.{
  ok, err, ingestion_error, file_too_large, file_exists_error, os_error,
}
use enterprise_knowledge_sea.Ingestion.Models.{StoredDocument}
use enterprise_knowledge_sea.Providers.LocalFiles.{
  Bytes, FilePath, FileSystem, Upload, Store, parent, uploading, is_relative_to, path_eq,
  resolve_key, copy_blocks, write_upload, abandon_upload, save_in_directory, storage_key_of,
  media_suffix, save, delete, open_document, suppressing_os_error,
}
use enterprise_knowledge_sea.Providers.LocalFiles.Paths.{
  parent-uploading, path_eq_sound, path_eq_refl,
}
use enterprise_knowledge_sea.Providers.LocalFiles.Saving.{FileSystemLaws, AreSame, uploaded}
use enterprise_knowledge_sea.Providers.LocalFiles.Outcomes.{
  IsSaved, save_returned, IsUnlinkRaised, save_raised,
}
use enterprise_knowledge_sea.Providers.LocalFiles.RoundTrip.{save-open-delete}
use enterprise_knowledge_sea.Tests.{zeros}

record Disk : Type 0 where
  files : FilePath → Option Bytes
  directories : FilePath → Bool

abbrev is_there : {A : Type 0} → Option A → Bool
is_there none = false
is_there (some a) = true

abbrev put : FilePath → Option Bytes → Disk → Disk
put p v s = record s { files = λ q. if path_eq q p then v else s.files q }

abbrev read : FilePath → Disk → Option Bytes
read p s = if s.directories (parent p) then s.files p else none

abbrev disk : FileSystem Disk
disk = record {
  make_directory = λ p s. if s.directories p then (err file_exists_error, s) else (
    ok tt,
    record {
      files = λ q. if path_eq (parent q) p then none else s.files q;
      directories = λ q. path_eq q p || s.directories q;
    },
  );
  create = λ p s.
      if s.directories (parent p) && not (is_there (s.files p))
      then (ok tt, put p (some []) s)
      else (err file_exists_error, s);
  append = λ p b s. elim (read p s) [
    | none ↦ (err os_error, s)
    | some c ↦ (ok tt, put p (some (c ++ b)) s)
  ];
  sync = λ p s. (ok tt, s);
  replace = λ p q s.
      if s.directories (parent q)
      then elim (read p s) [
        | none ↦ (err os_error, s)
        | some c ↦ (ok tt, put p none (put q (some c) s))
      ]
      else (err os_error, s);
  unlink = λ p s. (ok tt, put p none s);
  remove_directory = λ p s. (err os_error, s);
  read = read;
}

apart_eq : (p q : FilePath) → p ≢ q → path_eq p q ≡ false
apart_eq p q n = elim (Bool-cases (path_eq p q)) [
  | inl e ↦ elim (n (path_eq_sound p q (ground arith))) [ ]
  | inr e ↦ ground arith
]

disk-laws : FileSystemLaws disk
disk-laws = record {
  make_directory-same = λ p f q. ground (arith, path_eq_sound (parent q) p, ap f.directories);
  make_directory-empty = λ p f h. (ground arith, ground (arith, parent-uploading p));
  create-kept = λ p f q n. ground (arith, apart_eq q p n);
  create-empty = λ p f h. ground (arith, path_eq_refl p);
  append-kept = λ p b f q n. ground (arith, apart_eq q p n);
  append_written = λ p b c f h r. ground (arith, path_eq_refl p);
  sync-same = λ p f q. refl;
  replace_moved =
      λ p q f n h. ground (arith, apart_eq q p (λ e. n (sym e)), path_eq_refl p, path_eq_refl q);
  replace-kept = λ p q r f n m. ground (arith, apart_eq r p n, apart_eq r q m);
  replace_raised = λ p q f e h r. ground arith;
  unlink-kept = λ p f q n. ground (arith, apart_eq q p n);
  unlink_gone = λ p f h. ground (arith, path_eq_refl p);
  remove_directory-same = λ p f q. refl;
}

abbrev empty_disk : Disk
empty_disk = record { files = λ q. none; directories = λ q. false }

abbrev store : Store
store = record {
  root = codes "data" ∷ [];
  resolve = λ key. codes "data" ∷ codes "a" ∷ key ∷ [];
  uuid_text = λ id. id ∷ [];
  sha256_hex = λ bytes. zeros;
}

-- five bytes in two blocks
abbrev upload : Upload
upload = record { seek = ok tt; reads = ok (1 ∷ 2 ∷ 3 ∷ []) ∷ ok (4 ∷ 5 ∷ []) ∷ [] }

abbrev stored : StoredDocument
stored = record { storage_key = b'7' ∷ codes "/source.md"; sha256 = zeros; size_bytes = pos 5 }

abbrev saved_disk : Disk
saved_disk = (save disk store b'7' markdown upload (pos 8) empty_disk).1

abbrev deleted_disk : Disk
deleted_disk = (delete disk store stored.storage_key saved_disk).1

save_test : save disk store b'7' markdown upload (pos 8) empty_disk ≡ (ok stored, saved_disk)
unfolding save storage_key_of media_suffix resolve_key is_relative_to path_eq text_eq parent
    uploading save_in_directory write_upload copy_blocks
save_test = refl

delete_test : delete disk store stored.storage_key saved_disk ≡ (ok tt, deleted_disk)
unfolding delete resolve_key is_relative_to path_eq text_eq parent suppressing_os_error
delete_test = refl

-- the same upload over a limit of four bytes
too_large_test : save disk store b'7' markdown upload (pos 4) empty_disk ≡ (
  err (ingestion_error file_too_large),
  (save disk store b'7' markdown upload (pos 4) empty_disk).1,
)
unfolding save storage_key_of media_suffix resolve_key is_relative_to path_eq text_eq parent
    uploading save_in_directory write_upload copy_blocks abandon_upload suppressing_os_error
too_large_test = refl

save_returned_example :
    (target : FilePath) × (content : Bytes) × IsSaved disk disk-laws store b'7' markdown upload
      (pos 8)
      target
      content
      stored
      empty_disk
      saved_disk
save_returned_example =
    save_returned disk disk-laws store b'7' markdown upload (pos 8) empty_disk saved_disk stored
      save_test

save_raised_example :
    AreSame disk empty_disk (save disk store b'7' markdown upload (pos 4) empty_disk).1
    ⊎ IsUnlinkRaised disk disk-laws store b'7' markdown upload (pos 4) empty_disk
save_raised_example =
    save_raised disk disk-laws store b'7' markdown upload (pos 4) empty_disk
      (save disk store b'7' markdown upload (pos 4) empty_disk).1 (ingestion_error file_too_large)
      too_large_test

save-open-delete_example :
    (open_document disk store stored.storage_key saved_disk ≡ ok (uploaded disk upload.reads))
    × (open_document disk store stored.storage_key deleted_disk ≡ err os_error)
    × AreSame disk empty_disk deleted_disk
save-open-delete_example =
    save-open-delete disk disk-laws store b'7' markdown upload (pos 8) empty_disk saved_disk
      deleted_disk stored save_test delete_test
