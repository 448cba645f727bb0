-- ===== src/Providers/LocalFiles/Outcomes.antt =====
-- What `save` and `delete` of the document store return, and the files that they leave.
use enterprise_knowledge_sea.Common.{
  ℕ, ◌<◌, ◌≡◌, ◌≢◌, refl, none, some, Text, List, [], ◌⊎◌, inl, inr, length, ℤ, pos, ◌≤ℤ◌, arith,
  ap, sym, ◌∙◌, subst, Bool-cases, ◌==◌,
}
use enterprise_knowledge_sea.Errors.{Error, Result, ok, err, Result-cases}
use enterprise_knowledge_sea.Status.{DocumentMediaType}
use enterprise_knowledge_sea.Ingestion.Models.{StoredDocument}
use enterprise_knowledge_sea.Providers.LocalFiles.{
  Bytes, FilePath, FileSystem, Upload, Store, parent, uploading, resolve_key, copy_blocks,
  write_upload, abandon_upload, save_in_directory, storage_key_of, save, suppressing_os_error,
}
use enterprise_knowledge_sea.Providers.LocalFiles.Paths.{
  IsBelow, resolve_key-IsBelow, below_apart, same_path,
}
use enterprise_knowledge_sea.Providers.LocalFiles.Saving.{
  FileSystemLaws, AreSame, uploaded, copy_blocks_returned, write_upload-kept, write_upload_raised,
}

module _ {F : Type 0} (fs : FileSystem F) (laws : FileSystemLaws fs) where
  -- What an upload that is written is: all that was read, within the limit, at its target.
  pub record Written (max_bytes : ℤ) (target partial : FilePath) (reads : List (Result Bytes))
      (size : ℕ) (content : Bytes) (g : F) : Type 0 where
    pub whole : content ≡ uploaded fs reads
    pub measured : size ≡ length content
    pub not_empty : 0 < size
    pub bounded : pos size ≤ℤ max_bytes
    pub there : fs.read target g ≡ some content
    pub no_partial : fs.read partial g ≡ none

  write_upload_returned :
      (max_bytes : ℤ) (target partial : FilePath) (reads : List (Result Bytes)) (f g : F) (size : ℕ)
      (content : Bytes)
      → partial ≢ target
      → write_upload fs max_bytes target partial reads f ≡ (ok (size, content), g)
      → Written max_bytes target partial reads size content g
  unfolding write_upload
  write_upload_returned max_bytes target partial reads f g size content apart h =
      let f1 = (fs.create partial f).1 in
      let copy = copy_blocks fs max_bytes partial 0 [] reads f1 in
      elim (Result-cases (fs.create partial f).0) [
        | inr (x, k) ↦ ground arith
        | inl (_, k) ↦ elim (Result-cases copy.0) [
          | inr (x, l) ↦ ground arith
          | inl ((n, all), l) ↦ elim (Bool-cases (n == 0)) [
            | inl z ↦ ground arith
            | inr z ↦ elim (Result-cases (fs.replace partial target copy.1).0) [
              | inr (x, m) ↦ ground arith
              | inl (_, m) ↦
                  let c =
                    copy_blocks_returned fs laws max_bytes partial 0 [] reads f1 copy.1 n all
                      (laws.create-empty partial f (ground arith)) refl (inl refl)
                      (ground (arith, l)) in
                  let (r, r') = laws.replace_moved partial target copy.1 apart (ground arith) in
                  let e : all ≡ content = ground arith in
                  let e' : n ≡ size = ground arith in
                  let e'' : (fs.replace partial target copy.1).1 ≡ g = ground arith in
                  record {
                    whole = sym e ∙ c.whole;
                    measured = sym e' ∙ c.measured ∙ ap length e;
                    not_empty = ground arith;
                    bounded = ground (arith, c.bounded);
                    there = ap (fs.read target) (sym e'') ∙ r ∙ c.there ∙ ap some e;
                    no_partial = ap (fs.read partial) (sym e'') ∙ r';
                  }
            ]
          ]
        ]
      ]

  module _ (store : Store) (document_id : ℕ) (media_type : DocumentMediaType) (upload : Upload)
      (max_bytes : ℤ) where
    -- A document that is stored at a path, with what it holds.
    pub record IsSaved (target : FilePath) (content : Bytes) (stored : StoredDocument) (f g : F)
        : Type 0 where
      pub key : stored.storage_key ≡ storage_key_of fs store document_id media_type
      pub resolved : resolve_key store stored.storage_key ≡ ok target
      pub below : IsBelow store.root target
      pub whole : content ≡ uploaded fs upload.reads
      pub size : stored.size_bytes ≡ pos (length content)
      pub digest : stored.sha256 ≡ store.sha256_hex content
      pub not_empty : 0 < length content
      pub bounded : pos (length content) ≤ℤ max_bytes
      pub there : fs.read target g ≡ some content
      pub no_partial : fs.read (uploading target) g ≡ none
      pub others : (q : FilePath) → q ≢ target → q ≢ uploading target → fs.read q g ≡ fs.read q f

    -- the steps of a `save` that returns
    saved :
        (key : Text) (target : FilePath) (f g : F) (stored : StoredDocument)
        → save_in_directory fs store key target upload max_bytes f ≡ (ok stored, g)
        → (size : ℕ) × (content : Bytes) × (write_upload fs max_bytes target
              (uploading target)
              upload.reads
              f
            ≡ (ok (size, content), g))
          × (stored ≡ record {
            storage_key = key;
            sha256 = store.sha256_hex content;
            size_bytes = pos size;
          })
    unfolding save_in_directory abandon_upload suppressing_os_error
    saved key target f g stored h = elim (Result-cases upload.seek) [
      | inr (x, k) ↦ ground arith
      | inl (_, k) ↦
          elim (Result-cases
            (write_upload fs max_bytes target (uploading target) upload.reads f).0) [
              | inr (x, l) ↦ ground arith
              | inl ((n, all), l) ↦ (n, all, ground arith, ground arith)
            ]
    ]

    -- the parts of what `save_returned` states
    assembled :
        (target : FilePath) (f f1 g : F) (stored : StoredDocument) (size : ℕ) (content : Bytes)
        → resolve_key store (storage_key_of fs store document_id media_type) ≡ ok target
        → AreSame fs f f1
        → write_upload fs max_bytes target (uploading target) upload.reads f1
          ≡ (ok (size, content), g)
        → stored ≡ record {
          storage_key = storage_key_of fs store document_id media_type;
          sha256 = store.sha256_hex content;
          size_bytes = pos size;
        }
        → (target : FilePath) × (content : Bytes) × IsSaved target content stored f g
    assembled target f f1 g stored size content k same w e =
        let below = resolve_key-IsBelow store _ target k in
        let apart = below_apart store.root target below in
        let z =
          write_upload_returned max_bytes target (uploading target) upload.reads f1 g size content
            apart w in
        (
          target,
          content,
          record {
            key = ap (λ x. x.storage_key) e;
            resolved = ap (λ x. resolve_key store x.storage_key) e ∙ k;
            below = below;
            whole = z.whole;
            size = ap (λ x. x.size_bytes) e ∙ ap pos z.measured;
            digest = ap (λ x. x.sha256) e;
            not_empty = subst (λ n. 0 < n) z.measured z.not_empty;
            bounded = subst (λ n. pos n ≤ℤ max_bytes) z.measured z.bounded;
            there = z.there;
            no_partial = z.no_partial;
            others = λ q n n'.
                ap (λ r. fs.read q r.1) (sym w)
                ∙ write_upload-kept fs laws max_bytes target (uploading target) apart upload.reads
                    f1 q n n'
                ∙ same q;
          },
        )

    -- Over a file system that meets the documented behaviour of its calls, a `save` that returns
    -- has stored at the path of its key, which lies below the root, all the bytes that the upload
    -- gave, at least one and at most the limit, with their number and digest; no partial file is
    -- left, and no other file has changed.
    pub save_returned :
        (f g : F) (stored : StoredDocument)
        → save fs store document_id media_type upload max_bytes f ≡ (ok stored, g)
        → (target : FilePath) × (content : Bytes) × IsSaved target content stored f g
    unfolding save
    save_returned f g stored h =
        let key = storage_key_of fs store document_id media_type in
        elim (Result-cases (resolve_key store key)) [
          | inr (x, k) ↦ ground arith
          | inl (target, k) ↦
              let f1 = (fs.make_directory (parent target) f).1 in
              let (size, content, w, e) = saved key target f1 g stored (ground arith) in
              assembled target f f1 g stored size content k
                (laws.make_directory-same (parent target) f) w e
        ]

    -- the files that the upload to a target leaves
    abbrev pub upload_left : FilePath → F → F
    upload_left target f = (write_upload fs max_bytes target (uploading target) upload.reads f).1

    -- the files after a `save` that raises below the directory that it has made
    abandoned :
        (key : Text) (target : FilePath) (f g : F) (e : Error)
        → (fs.unlink (uploading target) (upload_left target f)).0 ≡ ok tt
        → uploading target ≢ target
        → fs.read (uploading target) f ≡ none
        → save_in_directory fs store key target upload max_bytes f ≡ (err e, g)
        → AreSame fs f g
    unfolding save_in_directory abandon_upload
    abandoned key target f g e removed apart fresh h q =
        let partial = uploading target in
        let w = write_upload fs max_bytes target partial upload.reads f in
        let u = (fs.unlink partial w.1).1 in
        elim (Result-cases upload.seek) [
          | inr (x, k) ↦ ground arith
          | inl (_, k) ↦ elim (Result-cases w.0) [
            | inl ((n, all), l) ↦ ground arith
            | inr (x, l) ↦
                let last : g ≡ (fs.remove_directory (parent target) u).1 =
                  ground (arith, removed) in
                let clean = ap (fs.read q) last ∙ laws.remove_directory-same (parent target) u q in
                let n : target ≢ partial = λ m. apart (sym m) in
                clean ∙ elim (same_path q partial) [
                  | inl m ↦
                      ap (λ p. fs.read p u) m
                      ∙ laws.unlink_gone partial w.1 removed
                      ∙ sym fresh
                      ∙ ap (λ p. fs.read p f) (sym m)
                  | inr m ↦ laws.unlink-kept partial w.1 q m ∙ elim (same_path q target) [
                    | inl t ↦
                        ap (λ p. fs.read p w.1) t
                        ∙ write_upload_raised fs laws max_bytes target partial apart upload.reads f
                            w.1 x (ground arith)
                        ∙ ap (λ p. fs.read p f) (sym t)
                    | inr t ↦
                        write_upload-kept fs laws max_bytes target partial apart upload.reads f q t
                          m
                  ]
                ]
          ]
        ]

    -- The removal of the partial file, after an upload that failed in the directory made for it,
    -- raises in its turn.
    pub record IsUnlinkRaised (f : F) : Type 0 where
      pub target : FilePath
      pub resolved : resolve_key store (storage_key_of fs store document_id media_type) ≡ ok target
      pub raised : Error
      pub unlinked :
          (fs.unlink
            (uploading target)
            (upload_left target (fs.make_directory (parent target) f).1)).0
          ≡ err raised

    -- Over a file system that meets the documented behaviour of its calls, a `save` that raises
    -- leaves every file as it was, or else the removal of its partial file raises: of the files
    -- that are left then, nothing is stated.
    pub save_raised :
        (f g : F) (e : Error)
        → save fs store document_id media_type upload max_bytes f ≡ (err e, g)
        → AreSame fs f g ⊎ IsUnlinkRaised f
    unfolding save
    save_raised f g e h =
        let key = storage_key_of fs store document_id media_type in
        elim (Result-cases (resolve_key store key)) [
          | inr (x, k) ↦ inl (λ q. ground arith)
          | inl (target, k) ↦
              let f1 = (fs.make_directory (parent target) f).1 in
              let same = laws.make_directory-same (parent target) f in
              elim (Result-cases (fs.make_directory (parent target) f).0) [
                | inr (x, l) ↦ inl (λ q. ground (arith, same q))
                | inl (_, l) ↦
                    let (_, fresh) = laws.make_directory-empty target f (ground arith) in
                    let apart =
                      below_apart store.root target (resolve_key-IsBelow store key target k) in
                    elim (Result-cases (fs.unlink (uploading target) (upload_left target f1)).0) [
                      | inr (x, u) ↦
                          inr (record { target = target; resolved = k; raised = x; unlinked = u })
                      | inl (_, u) ↦ inl (λ q.
                          abandoned key target f1 g e u apart (same (uploading target) ∙ fresh)
                            (ground arith) q
                          ∙ same q)
                    ]
              ]
        ]
