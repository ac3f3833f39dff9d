-- ===== src/Panel/Deleted.antt =====
-- `deleteStoredFile` removes the blob of the one row that it deletes.
use sub_manager.Base.{
  ℕ, ◌==◌, ◌≡◌, ◌≢◌, sym, refl, subst, Bool, true, false, not, ◌&&◌, some, List, [], ◌∷◌, exists,
  find, delete_where, arith, Bool-cases, inl, inr,
}
use sub_manager.Base.Rows.{All, Fresh, Unique, All-delete, All-find}
use sub_manager.Store
use sub_manager.Store.{
  Db, FileRow, Result, ok, err, StoredFile, uses_file, scan_stored_file, expect_one,
}
use sub_manager.Store.Valid.{IsValid}
use sub_manager.Storage
use sub_manager.Storage.{CleanPath, FileFacts, Disk, storage_path, digest_key, remove_blob}
use sub_manager.Storage.Inside.{IsRoot}
use sub_manager.Storage.Places.{storage_path-digest}
use sub_manager.Storage.Sound.{HasBlob, IsSound, remove-IsSound}

module _ {ℓ κ} {A : Type ℓ} {K : Type κ} (key : A → K) where
  All-Fresh : (k : K) (xs : List A) → Fresh key k xs → All (λ x. key x ≢ k) xs
  All-Fresh k [] h = tt
  All-Fresh k (x ∷ xs) h = (h.0, All-Fresh k xs h.1)

  Fresh-find :
      (k : K) (p : A → Bool) (xs : List A) (x : A) → Fresh key k xs → find p xs ≡ some x → key x ≢ k
  Fresh-find k p xs x h e = All-find (λ y. key y ≢ k) p xs x e (All-Fresh k xs h)

-- The files that are left have another digest.
others_differ :
    (id : ℕ) (unused : FileRow → Bool) (files : List FileRow) (row : FileRow)
    → Unique (λ f. f.id) files
    → Unique (λ f. f.sha256) files
    → find (λ f. f.id == id) files ≡ some row
    → exists (λ f. f.id == id && unused f) files ≡ true
    → All (λ f. f.sha256 ≢ row.sha256) (delete_where (λ f. f.id == id && unused f) files)
others_differ id unused [] row ids digests e h = tt
others_differ id unused (f ∷ files) row ids digests e h =
    let p = λ (r : FileRow). r.id == id && unused r in
    elim (Bool-cases (f.id == id)) [
      | inl hit ↦
          let fi : f.id ≡ id = ground arith in
          let fresh : Fresh (λ r. r.id) id files =
            subst (λ k. Fresh (λ (r : FileRow). r.id) k files) fi ids.0 in
          let same : f ≡ row = ground arith in
          let gone : p f ≡ true = ground (arith, no_more fresh) in
          rw gone (
            All-delete (λ r. r.sha256 ≢ row.sha256) p files
              (All-Fresh (λ r. r.sha256) row.sha256 files
                (subst (λ r. Fresh (λ (g : FileRow). g.sha256) r.sha256 files) same digests.0)))
      | inr miss ↦
          let kept : p f ≡ false = ground arith in
          let found : find (λ r. r.id == id) files ≡ some row = rw miss at e in
          rw kept (
            (λ (s : f.sha256 ≡ row.sha256).
                Fresh-find (λ r. r.sha256) f.sha256 (λ r. r.id == id) files row digests.0 found
                  (sym s)),
            others_differ id unused files row ids.1 digests.1 found (rw kept at h),
          )
    ]
  where
    no_more : Fresh (λ r. r.id) id files → exists (λ r. r.id == id && unused r) files ≡ false
    no_more fresh = none_hit files fresh
      where
        none_hit :
            (fs : List FileRow)
            → Fresh (λ r. r.id) id fs
            → exists (λ r. r.id == id && unused r) fs ≡ false
        none_hit [] k = refl
        none_hit (r ∷ fs) k = ground (arith, none_hit fs k.1)

-- Where `DeleteFile` succeeds, the table has lost the row, and nothing else.
deleted_row :
    (id : ℕ) (d : Db)
    → (Store.delete_file id d).0 ≡ ok tt
    → let p = λ (r : FileRow). r.id == id && not (uses_file r.id d.subscriptions) in
      (exists p d.files ≡ true) × ((Store.delete_file id d).1.files ≡ delete_where p d.files)
unfolding Store.delete_file Store.delete_unused_file expect_one
deleted_row id d h =
    let p = λ (r : FileRow). r.id == id && not (uses_file r.id d.subscriptions) in
    elim (Bool-cases (exists p d.files)) [
      | inl hit ↦ (hit, rw hit refl)
      | inr none_hit ↦ absurd (ground (arith, rw none_hit at h))
    ]

module _ (root : CleanPath) (facts : FileFacts) where
  -- The blob of a row that is deleted can go.
  pub deleted-IsSound :
      (id : ℕ) (d : Db) (disk : Disk) (row : FileRow) (refused : Bool)
      → IsRoot root
      → IsValid d
      → IsSound root facts d.files disk.blobs
      → find (λ f. f.id == id) d.files ≡ some row
      → (Store.delete_file id d).0 ≡ ok tt
      → IsSound root facts
          (Store.delete_file id d).1.files
          (Storage.remove_stored root row.storage_key refused disk).blobs
  unfolding Storage.remove_stored
  deleted-IsSound id d disk row refused w v i found done =
      let p = λ (r : FileRow). r.id == id && not (uses_file r.id d.subscriptions) in
      let (hit, left) = deleted_row id d done in
      let blob =
        All-find (HasBlob root facts disk.blobs) (λ f. f.id == id) d.files row found i.present in
      let rest : IsSound root facts (delete_where p d.files) disk.blobs = record {
        addressed = i.addressed;
        present = All-delete (HasBlob root facts disk.blobs) p d.files i.present;
      } in
      let apart =
        others_differ id (λ r. not (uses_file r.id d.subscriptions)) d.files row v.files.ids
          v.files.digests found hit in
      elim (Bool-cases refused) [
        | inl stays ↦ rw (stays, left) rest
        | inr goes ↦
            rw (goes, left, blob.1, storage_path-digest root row.sha256 w blob.0)
              (remove-IsSound root facts (delete_where p d.files) disk.blobs row.sha256 rest apart)
      ]
