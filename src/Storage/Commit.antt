-- ===== src/Storage/Commit.antt =====
-- What the steps of an upload do to the files directory.
use sub_manager.Base.{
  ℕ, ◌+◌, ◌≤◌, ◌≡◌, ◌∙◌, sym, ap, refl, subst, ltb, Bool, true, false, not, ◌||◌, Option, none,
  some, List, Text, text_eq_refl, is_empty, length, take, arith, Bool-cases, inl, inr,
}
use sub_manager.Base.Dict.{lookup, insert, erase, lookup-insert}
use sub_manager.Store.{FileRow}
use sub_manager.Storage.Paths.{CleanPath, storage_path}
use sub_manager.Storage.Directory.{
  Content, put_blob, Disk, FileFacts, StagedFile, uploaded, StageFault, no_stage_fault, CommitFault,
  no_commit_fault, stage, commit, commit_at, digest_key, staged_file, stops_copy, stops_close,
  is_directory_fault, is_remove_fault, is_rename_fault, is_chmod_fault,
}
use sub_manager.Storage.Inside.{IsRoot}
use sub_manager.Storage.Places.{IsDigest, place_eq_iff, place_of, storage_path-digest}
use sub_manager.Storage.Sound.{is_some, IsSound, put-IsSound, remove-IsSound, missing_unused}

module _ (root : CleanPath) (facts : FileFacts) where
  -- A staged file: its content waits under its temporary name.
  pub record IsStaged (staged : StagedFile) (disk : Disk) : Type 0 where
    pub content : Content
    pub waits : lookup staged.temp disk.temps ≡ some content
    pub named : staged.sha256 ≡ facts.sha256 content
    pub keyed : staged.storage_key ≡ digest_key staged.sha256
    pub digest : IsDigest staged.sha256

  pub staged_file-IsStaged :
      (temp : Text) (written : Content) (filename : Text) (disk : Disk)
      → IsDigest (facts.sha256 written)
      → IsStaged
          (staged_file facts temp filename written)
          (record disk { temps = insert temp written disk.temps })
  staged_file-IsStaged temp written filename disk dig = record {
    content = written;
    waits = rw (lookup-insert temp temp written disk.temps, text_eq_refl temp) refl;
    named = refl;
    keyed = refl;
    digest = dig;
  }

  uploaded_inj : (s t : StagedFile) → uploaded s ≡ uploaded t → s ≡ t
  uploaded_inj s t e = cc

  -- `Stage` returns a file that waits under its temporary name, with the digests and the size of what
  -- was sent, within the limit.
  pub stage-IsStaged :
      (temp : Text) (content : Content) (filename : Text) (max_bytes : ℕ) (fault : StageFault)
      (disk : Disk) (staged : StagedFile)
      → ((c : Content) → IsDigest (facts.sha256 c))
      → (stage facts temp content filename max_bytes fault disk).0 ≡ uploaded staged
      → IsStaged staged (stage facts temp content filename max_bytes fault disk).1
        × (staged_file facts temp filename (take (max_bytes + 1) content) ≡ staged)
        × (length (take (max_bytes + 1) content) ≤ max_bytes)
  unfolding stage
  stage-IsStaged temp content filename max_bytes fault disk staged hex h =
      let written = take (max_bytes + 1) content in
      elim (Bool-cases (stops_copy fault)) [
        | inl a ↦ absurd (ground arith)
        | inr a ↦ elim (Bool-cases (is_empty written)) [
          | inl b ↦ absurd (ground arith)
          | inr b ↦ elim (Bool-cases (ltb max_bytes (length written))) [
            | inl c ↦ absurd (ground arith)
            | inr c ↦ elim (Bool-cases (stops_close fault)) [
              | inl d ↦ absurd (ground arith)
              | inr d ↦
                  let e : staged_file facts temp filename written ≡ staged =
                    uploaded_inj (staged_file facts temp filename written) staged
                      (rw (a, b, c, d) at h) in
                  rw (a, b, c, d)
                    (
                      subst
                          (λ x. IsStaged x (record disk { temps = insert temp written disk.temps }))
                          e (staged_file-IsStaged temp written filename disk (hex written)),
                      e,
                      ground arith,
                    )
            ]
          ]
        ]
      ]

  -- What `Stage` accepts is not empty and within the limit; and without faults it accepts that.
  pub stage_accepts :
      (temp : Text) (content : Content) (filename : Text) (max_bytes : ℕ) (fault : StageFault)
      (disk : Disk) (staged : StagedFile)
      → (stage facts temp content filename max_bytes fault disk).0 ≡ uploaded staged
      → let written = take (max_bytes + 1) content in
        (is_empty written ≡ false) × (ltb max_bytes (length written) ≡ false)
  unfolding stage
  stage_accepts temp content filename max_bytes fault disk staged h =
      let written = take (max_bytes + 1) content in
      elim (Bool-cases (is_empty written)) [
        | inl a ↦ absurd (ground arith)
        | inr a ↦ elim (Bool-cases (ltb max_bytes (length written))) [
          | inl b ↦ absurd (ground arith)
          | inr b ↦ (a, b)
        ]
      ]

  pub stage_good :
      (temp : Text) (content : Content) (filename : Text) (max_bytes : ℕ) (disk : Disk)
      → let written = take (max_bytes + 1) content in
        is_empty written ≡ false
        → ltb max_bytes (length written) ≡ false
        → stage facts temp content filename max_bytes no_stage_fault disk ≡ (
          uploaded (staged_file facts temp filename written),
          record disk { temps = insert temp written disk.temps },
        )
  unfolding stage
  stage_good temp content filename max_bytes disk a b = rw (a, b) refl

  pub stage-blobs :
      (temp : Text) (content : Content) (filename : Text) (max_bytes : ℕ) (fault : StageFault)
      (disk : Disk)
      → (stage facts temp content filename max_bytes fault disk).1.blobs ≡ disk.blobs
  unfolding stage
  stage-blobs temp content filename max_bytes fault disk = ground arith

  module _ (files : List FileRow) (staged : StagedFile) (fault : CommitFault) where
    -- What is claimed of the result of a commit.
    pub record Committed (x : Bool × Disk) : Type 0 where
      pub sound : IsSound root facts files x.1.blobs
      pub stored : (not x.0 || is_some (x.1.blobs (place_of root staged.sha256))) ≡ true

    commit_at-Committed :
        (disk : Disk) (found : Option Content)
        → disk.blobs (place_of root staged.sha256) ≡ found
        → IsSound root facts files disk.blobs
        → IsStaged staged disk
        → Committed (commit_at staged fault (place_of root staged.sha256) disk found)
    commit_at-Committed disk (some old) e i s = elim (Bool-cases (is_remove_fault fault)) [
      | inl stuck ↦ rw stuck (record { sound = i; stored = refl })
      | inr gone ↦ rw gone (record { sound = i; stored = rw e refl })
    ]
    commit_at-Committed disk none e i s =
        let place = place_of root staged.sha256 in
        let put : IsSound root facts files (put_blob place s.content disk.blobs) =
          put-IsSound root facts files disk.blobs staged.sha256 s.content i (sym s.named) in
        rw s.waits (elim (Bool-cases (is_rename_fault fault)) [
          | inl stuck ↦ rw stuck (record { sound = i; stored = refl })
          | inr moved ↦ elim (Bool-cases (is_chmod_fault fault)) [
            | inl refused ↦
                rw (moved, refused)
                  (record {
                    sound =
                        remove-IsSound root facts files (put_blob place s.content disk.blobs)
                          staged.sha256 put
                          (missing_unused root facts disk.blobs staged.sha256 files e i.present);
                    stored = refl;
                  })
            | inr kept ↦
                rw (moved, kept)
                  (record { sound = put; stored = rw ((place_eq_iff place place).1 refl) refl })
          ]
        ])

    -- With a rooted path to the files directory, a commit of a staged file keeps the directory
    -- sound, whatever fails in it; if it reports no error, there is a blob for the digest of the
    -- staged file.
    pub commit-Committed :
        (disk : Disk)
        → IsRoot root
        → IsSound root facts files disk.blobs
        → IsStaged staged disk
        → Committed (commit root staged fault disk)
    unfolding commit
    commit-Committed disk r i s =
        rw (ap (storage_path root) s.keyed ∙ storage_path-digest root staged.sha256 r s.digest)
          (elim (Bool-cases (is_directory_fault fault)) [
            | inl stuck ↦ rw stuck (record { sound = i; stored = refl })
            | inr there ↦
                rw there
                  (commit_at-Committed disk (disk.blobs (place_of root staged.sha256)) refl i s)
          ])

  -- Without faults a staged file whose blob is there is only dropped.
  pub commit_known :
      (staged : StagedFile) (disk : Disk)
      → IsRoot root
      → IsStaged staged disk
      → is_some (disk.blobs (place_of root staged.sha256)) ≡ true
      → commit root staged no_commit_fault disk
        ≡ (true, record disk { temps = erase staged.temp disk.temps })
  unfolding commit
  commit_known staged disk r s h =
      rw (ap (storage_path root) s.keyed ∙ storage_path-digest root staged.sha256 r s.digest)
        (there (disk.blobs (place_of root staged.sha256)) h)
    where
      there :
          (found : Option Content)
          → is_some found ≡ true
          → commit_at staged no_commit_fault (place_of root staged.sha256) disk found
            ≡ (true, record disk { temps = erase staged.temp disk.temps })
      there none k = absurd (ground arith)
      there (some c) k = refl
