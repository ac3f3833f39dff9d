-- ===== src/Uploads/Stored.antt =====
-- An upload keeps the files directory and the table of files in step.
use sub_manager.Base.{
  ◌+◌, ◌==◌, ◌≡◌, sym, refl, subst, Bool, true, false, not, ◌||◌, List, [], ◌∷◌, ◌++◌, text_eq,
  exists, Bool-cases, inl, inr,
}
use sub_manager.Base.Rows.{All-snoc}
use sub_manager.Clock.{Time}
use sub_manager.Store
use sub_manager.Store.{Db, FileRow, StoredFile, Result, StoreError, ok, err}
use sub_manager.Storage
use sub_manager.Storage.{
  CleanPath, Content, Disk, FileFacts, StagedFile, Upload, uploaded, failed, save_failed,
  StageFault, CommitFault, header_filename, discard,
}
use sub_manager.Storage.Inside.{IsRoot}
use sub_manager.Storage.Places.{IsDigest, place_of}
use sub_manager.Storage.Sound.{is_some, HasBlob, IsSound}
use sub_manager.Storage.Commit.{IsStaged, stage-IsStaged, stage-blobs, Committed, commit-Committed}
use sub_manager.Uploads.{
  FileState, Sending, give_up, keep_known, row_found, row_made, make_row, check_sha256,
  check_digests, save_staged, save_uploaded_file,
}

module _ (root : CleanPath) (facts : FileFacts) where
  -- Every row of `files` has its blob, and what lies at the place of a digest has that digest.
  abbrev pub InStep : FileState → Type 0
  InStep st = IsSound root facts st.db.files st.disk.blobs

  -- The table after an attempt to make the row of a staged file.
  created-files :
      (staged : StagedFile) (now : Time) (d : Db) (P : List FileRow → Type 0)
      → P d.files
      → P (
          d.files
          ++ Store.new_file staged.md5 staged.sha256 staged.size staged.content_type
              staged.storage_key staged.original_name now
              (d.last_file + 1)
            ∷ [])
      → P
          (Store.create_file staged.md5 staged.sha256 staged.size staged.content_type
            staged.storage_key staged.original_name now d).1.files
  unfolding Store.create_file Store.insert_file
  created-files staged now d P old new =
      elim (Bool-cases (
        exists (λ r. text_eq r.sha256 staged.sha256) d.files
        || exists (λ r. text_eq r.storage_key staged.storage_key) d.files)) [
          | inl taken ↦ rw taken old
          | inr free ↦ rw free new
        ]

  row_made-InStep :
      (staged : StagedFile) (disk : Disk) (x : Result StoredFile × Db)
      → IsSound root facts x.1.files disk.blobs
      → InStep (row_made root facts staged disk x).1
  row_made-InStep staged disk (ok file, d) i = i
  row_made-InStep staged disk (err e, d) i =
      found (Store.file_by_digests staged.md5 staged.sha256 d)
    where
      found :
          (r : Result StoredFile)
          → InStep (row_found root facts (record { db = d; disk = disk }) r).1
      found (ok existing) = i
      found (err f) = i

  give_up-InStep :
      (staged : StagedFile) (st : FileState) → InStep st → InStep (give_up root facts staged st).1
  unfolding discard
  give_up-InStep staged st i = i

  keep_known-InStep :
      (staged : StagedFile) (existing : StoredFile) (st : FileState) (x : Bool × Disk)
      → IsSound root facts st.db.files x.1.blobs
      → InStep (keep_known root facts staged existing st x).1
  keep_known-InStep staged existing st (true, disk) i = i
  keep_known-InStep staged existing st (false, disk) i =
      give_up-InStep staged (record st { disk = disk }) i

  make_row-InStep :
      (staged : StagedFile) (now : Time) (st : FileState) (x : Bool × Disk)
      → IsStaged root facts staged st.disk
      → IsSound root facts st.db.files x.1.blobs
      → (not x.0 || is_some (x.1.blobs (place_of root staged.sha256))) ≡ true
      → InStep (make_row root facts staged now st x).1
  make_row-InStep staged now st (false, disk) s i h =
      give_up-InStep staged (record st { disk = disk }) i
  make_row-InStep staged now st (true, disk) s i h =
      row_made-InStep staged disk
        (Store.create_file staged.md5 staged.sha256 staged.size staged.content_type
          staged.storage_key staged.original_name now st.db)
        (created-files staged now st.db (λ files. IsSound root facts files disk.blobs) i
          (record {
            addressed = i.addressed;
            present =
                All-snoc (HasBlob root facts disk.blobs) st.db.files _ i.present
                  (s.digest, s.keyed, h);
          }))

  check_digests-InStep :
      (staged : StagedFile) (fault : CommitFault) (now : Time) (st : FileState)
      (r : Result StoredFile)
      → IsRoot root
      → InStep st
      → IsStaged root facts staged st.disk
      → InStep (check_digests root facts staged fault now st r).1
  check_digests-InStep staged fault now st r w i s =
      let c = commit-Committed root facts st.db.files staged fault st.disk w i s in known c r
    where
      other :
          Committed root facts st.db.files staged fault (Storage.commit root staged fault st.disk)
          → (q : Result StoredFile) → InStep (check_sha256 root facts staged fault now st q).1
      other c (ok file) = give_up-InStep staged st i
      other c (err e) =
          make_row-InStep staged now st (Storage.commit root staged fault st.disk) s c.sound
            c.stored

      known :
          Committed root facts st.db.files staged fault (Storage.commit root staged fault st.disk)
          → (q : Result StoredFile) → InStep (check_digests root facts staged fault now st q).1
      known c (err e) = other c (Store.file_by_sha256 staged.sha256 st.db)
      known c (ok existing) =
          elim (Bool-cases
            (not (text_eq existing.md5 staged.md5) || not (existing.size == staged.size))) [
              | inl wrong ↦ rw wrong (give_up-InStep staged st i)
              | inr right ↦ rw right (
                  keep_known-InStep staged existing st (Storage.commit root staged fault st.disk)
                    c.sound)
            ]

  -- With a rooted path to the files directory, and as SHA-256 digests are 64 hex digits, an upload
  -- keeps this: every row of the table of files has its blob in the directory, at the place of its
  -- SHA-256, and what lies at the place of a digest has that digest; whether the upload succeeds
  -- or where it fails.
  pub save-InStep :
      (s : Sending) (now : Time) (st : FileState)
      → IsRoot root
      → ((c : Content) → IsDigest (facts.sha256 c))
      → InStep st
      → InStep (save_uploaded_file root facts s now st).1
  unfolding save_uploaded_file
  save-InStep s now st w hex i =
      go
        (Storage.stage facts s.temp s.content (header_filename s.filename) s.max_bytes s.stage_fault
          st.disk)
        (subst (λ b. IsSound root facts st.db.files b)
          (sym (
            stage-blobs root facts s.temp s.content (header_filename s.filename) s.max_bytes
              s.stage_fault st.disk))
          i)
        (λ staged e.
          (stage-IsStaged root facts s.temp s.content (header_filename s.filename) s.max_bytes
            s.stage_fault st.disk staged hex e).0)
    where
      go :
          (x : Upload StagedFile × Disk)
          → IsSound root facts st.db.files x.1.blobs
          → ((staged : StagedFile) → x.0 ≡ uploaded staged → IsStaged root facts staged x.1)
          → InStep (save_staged root facts s.commit_fault now st.db x).1
      go (failed e, disk) j f = j
      go (uploaded staged, disk) j f =
          check_digests-InStep staged s.commit_fault now (record { db = st.db; disk = disk })
            (Store.file_by_digests staged.md5 staged.sha256 st.db) w j (f staged refl)
