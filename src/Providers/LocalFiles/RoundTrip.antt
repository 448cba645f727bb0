-- ===== src/Providers/LocalFiles/RoundTrip.antt =====
-- `save`, `open` and `delete` of the document store, one after the other.
use enterprise_knowledge_sea.Common.{
  ℕ, ◌≡◌, ◌≢◌, inl, inr, none, some, Text, ℤ, arith, ap, sym, ◌∙◌,
}
use enterprise_knowledge_sea.Errors.{ok, err, os_error, Result-cases}
use enterprise_knowledge_sea.Status.{DocumentMediaType}
use enterprise_knowledge_sea.Ingestion.Models.{StoredDocument}
use enterprise_knowledge_sea.Providers.LocalFiles.{
  FilePath, FileSystem, Upload, Store, parent, uploading, resolve_key, storage_key_of, save, delete,
  open_document, suppressing_os_error,
}
use enterprise_knowledge_sea.Providers.LocalFiles.Paths.{same_path}
use enterprise_knowledge_sea.Providers.LocalFiles.Saving.{FileSystemLaws, AreSame, uploaded}
use enterprise_knowledge_sea.Providers.LocalFiles.Outcomes.{save_returned}

module _ {F : Type 0} (fs : FileSystem F) (laws : FileSystemLaws fs) (store : Store) where
  deleted :
      (key : Text) (path : FilePath) (g t : F)
      → resolve_key store key ≡ ok path
      → delete fs store key g ≡ (ok tt, t)
      → (fs.read path t ≡ none) × ((q : FilePath) → q ≢ path → fs.read q t ≡ fs.read q g)
  unfolding delete suppressing_os_error
  deleted key path g t k h =
      let u = (fs.unlink path g).1 in
      elim (Result-cases (fs.unlink path g).0) [
        | inr (x, l) ↦ ground arith
        | inl (_, l) ↦
            let e : t ≡ (fs.remove_directory (parent path) u).1 = ground arith in
            let same = laws.remove_directory-same (parent path) u in
            (
              ap (fs.read path) e ∙ same path ∙ laws.unlink_gone path g (ground arith),
              λ q n. ap (fs.read q) e ∙ same q ∙ laws.unlink-kept path g q n,
            )
      ]

  opened :
      (key : Text) (path : FilePath) (g : F)
      → resolve_key store key ≡ ok path
      → open_document fs store key g
        ≡ (elim (fs.read path g) [ none ↦ err os_error | some content ↦ ok content ])
  unfolding open_document
  opened key path g k = ground arith

  -- the target of a directory that is made had no file
  was_free :
      (document_id : ℕ) (media_type : DocumentMediaType) (upload : Upload) (max_bytes : ℤ) (f g : F)
      (stored : StoredDocument) (target : FilePath)
      → save fs store document_id media_type upload max_bytes f ≡ (ok stored, g)
      → resolve_key store (storage_key_of fs store document_id media_type) ≡ ok target
      → (fs.read target f ≡ none) × (fs.read (uploading target) f ≡ none)
  unfolding save
  was_free document_id media_type upload max_bytes f g stored target h k =
      elim (Result-cases (fs.make_directory (parent target) f).0) [
        | inr (x, l) ↦ ground arith
        | inl (_, l) ↦ laws.make_directory-empty target f (ground arith)
      ]

  -- Over a file system that meets the documented behaviour of its calls, what a `save` has stored
  -- is what `open` of its key reads, namely the bytes of the upload; and once a `delete` of the key
  -- returns, `open` of it raises and every file is as it was before the `save`.
  pub save-open-delete :
      (document_id : ℕ) (media_type : DocumentMediaType) (upload : Upload) (max_bytes : ℤ)
      (f g t : F) (stored : StoredDocument)
      → save fs store document_id media_type upload max_bytes f ≡ (ok stored, g)
      → delete fs store stored.storage_key g ≡ (ok tt, t)
      → (open_document fs store stored.storage_key g ≡ ok (uploaded fs upload.reads))
        × (open_document fs store stored.storage_key t ≡ err os_error)
        × AreSame fs f t
  save-open-delete document_id media_type upload max_bytes f g t stored h h' =
      let (target, content, s) =
        save_returned fs laws store document_id media_type upload max_bytes f g stored h in
      let (gone, others) = deleted stored.storage_key target g t s.resolved h' in
      let free =
        was_free document_id media_type upload max_bytes f g stored target h
          (ap (resolve_key store) (sym s.key) ∙ s.resolved) in
      (
        ground (arith, opened stored.storage_key target g s.resolved, s.there, s.whole),
        ground (arith, opened stored.storage_key target t s.resolved, gone),
        λ q. elim (same_path q target) [
          | inl e ↦ ap (λ p. fs.read p t) e ∙ gone ∙ sym free.0 ∙ ap (λ p. fs.read p f) (sym e)
          | inr n ↦ elim (same_path q (uploading target)) [
            | inl e ↦
                others q n
                ∙ ap (λ p. fs.read p g) e
                ∙ s.no_partial
                ∙ sym free.1
                ∙ ap (λ p. fs.read p f) (sym e)
            | inr m ↦ others q n ∙ s.others q n m
          ]
        ],
      )
