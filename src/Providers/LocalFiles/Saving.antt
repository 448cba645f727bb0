-- ===== src/Providers/LocalFiles/Saving.antt =====
-- What `save` and `delete` of the document store do to the files, over a file system that meets
-- the documented behaviour of its calls.
use enterprise_knowledge_sea.Common.{
  ℕ, ◌+◌, ◌≡◌, ◌≢◌, refl, none, some, List, [], ◌∷◌, ◌++◌, ◌⊎◌, inl, inr, length, length-append,
  append-nil, append_assoc, ℤ, pos, ◌≤ℤ◌, arith, ap, sym, ◌∙◌, subst, ltb_ℤ, Bool-cases,
}
use enterprise_knowledge_sea.Errors.{Error, Result, ok, err, Result-cases}
use enterprise_knowledge_sea.Providers.LocalFiles.{
  Bytes, FilePath, FileSystem, parent, uploading, copy_blocks, write_upload,
}

module _ {F : Type 0} (fs : FileSystem F) where
  -- The files other than one are as before.
  abbrev pub IsKept : FilePath → F → F → Type 0
  IsKept path f g = (q : FilePath) → q ≢ path → fs.read q g ≡ fs.read q f

  abbrev pub AreSame : F → F → Type 0
  AreSame f g = (q : FilePath) → fs.read q g ≡ fs.read q f

  -- Directories are not files; a directory that is made is empty; a call that returns has changed
  -- its files, and none of its calls changes another; a replacement that raises changes nothing.
  pub record FileSystemLaws : Type 0 where
    pub make_directory-same : (p : FilePath) (f : F) → AreSame f (fs.make_directory p f).1
    pub make_directory-empty :
        (p : FilePath) (f : F)
        → (fs.make_directory (parent p) f).0 ≡ ok tt
        → (fs.read p f ≡ none) × (fs.read (uploading p) f ≡ none)
    pub create-kept : (p : FilePath) (f : F) → IsKept p f (fs.create p f).1
    pub create-empty :
        (p : FilePath) (f : F) → (fs.create p f).0 ≡ ok tt → fs.read p (fs.create p f).1 ≡ some []
    pub append-kept : (p : FilePath) (b : Bytes) (f : F) → IsKept p f (fs.append p b f).1
    pub append_written :
        (p : FilePath) (b c : Bytes) (f : F)
        → (fs.append p b f).0 ≡ ok tt
        → fs.read p f ≡ some c
        → fs.read p (fs.append p b f).1 ≡ some (c ++ b)
    pub sync-same : (p : FilePath) (f : F) → AreSame f (fs.sync p f).1
    pub replace_moved :
        (p q : FilePath) (f : F)
        → p ≢ q
        → (fs.replace p q f).0 ≡ ok tt
        → (fs.read q (fs.replace p q f).1 ≡ fs.read p f) × (fs.read p (fs.replace p q f).1 ≡ none)
    pub replace-kept :
        (p q r : FilePath) (f : F) → r ≢ p → r ≢ q → fs.read r (fs.replace p q f).1 ≡ fs.read r f
    pub replace_raised :
        (p q : FilePath) (f : F) (e : Error)
        → (fs.replace p q f).0 ≡ err e
        → AreSame f (fs.replace p q f).1
    pub unlink-kept : (p : FilePath) (f : F) → IsKept p f (fs.unlink p f).1
    pub unlink_gone :
        (p : FilePath) (f : F) → (fs.unlink p f).0 ≡ ok tt → fs.read p (fs.unlink p f).1 ≡ none
    pub remove_directory-same : (p : FilePath) (f : F) → AreSame f (fs.remove_directory p f).1

  -- The bytes of an upload, up to the first read that returns none.
  abbrev pub uploaded : List (Result Bytes) → Bytes
  uploaded [] = []
  uploaded (err e ∷ more) = []
  uploaded (ok [] ∷ more) = []
  uploaded (ok (b ∷ bs) ∷ more) = (b ∷ bs) ++ uploaded more

  module _ (laws : FileSystemLaws) (max_bytes : ℤ) (partial : FilePath) where
    pub copy_blocks-IsKept :
        (size : ℕ) (seen : Bytes) (reads : List (Result Bytes)) (f : F)
        → IsKept partial f (copy_blocks fs max_bytes partial size seen reads f).1
    unfolding copy_blocks
    copy_blocks-IsKept size seen [] f q n = ground (arith, laws.sync-same partial f q)
    copy_blocks-IsKept size seen (err e ∷ more) f q n = refl
    copy_blocks-IsKept size seen (ok [] ∷ more) f q n = ground (arith, laws.sync-same partial f q)
    copy_blocks-IsKept size seen (ok (b ∷ bs) ∷ more) f q n =
        let rest =
          copy_blocks-IsKept (size + length (b ∷ bs)) (seen ++ (b ∷ bs)) more
            (fs.append partial (b ∷ bs) f).1 q n in
        ground (arith, laws.append-kept partial (b ∷ bs) f q n, rest)

    -- What a copy that ends has in the file.
    pub record Copied (seen : Bytes) (reads : List (Result Bytes)) (size : ℕ) (content : Bytes)
        (f g : F) : Type 0 where
      pub whole : content ≡ seen ++ uploaded reads
      pub measured : size ≡ length content
      pub bounded : (size ≡ 0) ⊎ (pos size ≤ℤ max_bytes)
      pub there : fs.read partial g ≡ some content

    -- a copy that has read everything
    ended :
        (size n : ℕ) (seen content : Bytes) (reads : List (Result Bytes)) (f g : F)
        → uploaded reads ≡ []
        → fs.read partial f ≡ some seen
        → size ≡ length seen
        → (size ≡ 0) ⊎ (pos size ≤ℤ max_bytes)
        → n ≡ size
        → content ≡ seen
        → g ≡ (fs.sync partial f).1
        → Copied seen reads n content f g
    ended size n seen content reads f g u r m b e e' e'' = record {
      whole = e' ∙ sym (append-nil seen) ∙ ap (λ x. seen ++ x) (sym u);
      measured = e ∙ m ∙ ap length (sym e');
      bounded = subst (λ k. (k ≡ 0) ⊎ (pos k ≤ℤ max_bytes)) (sym e) b;
      there = ap (fs.read partial) e'' ∙ laws.sync-same partial f partial ∙ r ∙ ap some (sym e');
    }

    pub copy_blocks_returned :
        (size : ℕ) (seen : Bytes) (reads : List (Result Bytes)) (f g : F) (n : ℕ) (content : Bytes)
        → fs.read partial f ≡ some seen
        → size ≡ length seen
        → (size ≡ 0) ⊎ (pos size ≤ℤ max_bytes)
        → copy_blocks fs max_bytes partial size seen reads f ≡ (ok (n, content), g)
        → Copied seen reads n content f g
    unfolding copy_blocks
    copy_blocks_returned size seen [] f g n content r m b h =
        ended size n seen content [] f g refl r m b (ground arith) (ground arith) (ground arith)
    copy_blocks_returned size seen (err e ∷ more) f g n content r m b h = ground arith
    copy_blocks_returned size seen (ok [] ∷ more) f g n content r m b h =
        ended size n seen content (ok [] ∷ more) f g refl r m b (ground arith) (ground arith)
          (ground arith)
    copy_blocks_returned size seen (ok (x ∷ xs) ∷ more) f g n content r m b h =
        let f1 = (fs.append partial (x ∷ xs) f).1 in
        let size1 = size + length (x ∷ xs) in
        elim (Bool-cases (ltb_ℤ max_bytes (pos size1))) [
          | inl q ↦ ground arith
          | inr q ↦ elim (Result-cases (fs.append partial (x ∷ xs) f).0) [
            | inr (e, k) ↦ ground arith
            | inl (_, k) ↦
                let c =
                  copy_blocks_returned size1 (seen ++ (x ∷ xs)) more f1 g n content
                    (laws.append_written partial (x ∷ xs) seen f (ground arith) r)
                    (omega (arith, m, length-append seen (x ∷ xs))) (inr (ground arith))
                    (ground arith) in
                record {
                  whole = c.whole ∙ append_assoc seen (x ∷ xs) (uploaded more);
                  measured = c.measured;
                  bounded = c.bounded;
                  there = c.there;
                }
          ]
        ]

  module _ (laws : FileSystemLaws) (max_bytes : ℤ) (target partial : FilePath)
      (apart : partial ≢ target) where
    pub write_upload-kept :
        (reads : List (Result Bytes)) (f : F) (q : FilePath)
        → q ≢ target
        → q ≢ partial
        → fs.read q (write_upload fs max_bytes target partial reads f).1 ≡ fs.read q f
    unfolding write_upload
    write_upload-kept reads f q n n' =
        let f1 = (fs.create partial f).1 in
        let f2 = (copy_blocks fs max_bytes partial 0 [] reads f1).1 in
        ground (
          arith,
          laws.create-kept partial f q n',
          copy_blocks-IsKept laws max_bytes partial 0 [] reads f1 q n',
          laws.replace-kept partial target q f2 n' n,
        )

    -- where the `try` block raises, the target is as it was
    pub write_upload_raised :
        (reads : List (Result Bytes)) (f g : F) (e : Error)
        → write_upload fs max_bytes target partial reads f ≡ (err e, g)
        → fs.read target g ≡ fs.read target f
    unfolding write_upload
    write_upload_raised reads f g e h =
        let f1 = (fs.create partial f).1 in
        let f2 = (copy_blocks fs max_bytes partial 0 [] reads f1).1 in
        let n : target ≢ partial = λ k. apart (sym k) in
        let before =
          copy_blocks-IsKept laws max_bytes partial 0 [] reads f1 target n
          ∙ laws.create-kept partial f target n in
        elim (Result-cases (fs.replace partial target f2).0) [
          | inl (_, k) ↦ ground (arith, laws.create-kept partial f target n, before)
          | inr (x, k) ↦
              let last = laws.replace_raised partial target f2 x k target in
              ground (arith, laws.create-kept partial f target n, before, last)
        ]
