-- ===== src/Uploads/Kept.antt =====
-- An upload does to the database at most what `CreateFile` does.
use sub_manager.Base.{ℕ, ◌==◌, Bool, true, false, not, ◌||◌, Text, text_eq, Bool-cases, inl, inr}
use sub_manager.Clock.{Time}
use sub_manager.Store
use sub_manager.Store.{Db, StoredFile, Result, ok, err}
use sub_manager.Store.Valid.{Keeps, create_file-Keeps}
use sub_manager.Storage
use sub_manager.Storage.{
  CleanPath, Disk, FileFacts, StagedFile, Upload, uploaded, failed, CommitFault, header_filename,
}
use sub_manager.Uploads.{
  FileState, Sending, keep_known, row_found, row_made, make_row, check_sha256, check_digests,
  save_staged, save_uploaded_file,
}

module _ (root : CleanPath) (facts : FileFacts) (P : Db → Type 0)
    (law : (md5 sha : Text) (size : ℕ) (content_type key name : Text) (now : Time)
      → Keeps P (Store.insert_file (Store.new_file md5 sha size content_type key name now))) where
  row_made_kept :
      (staged : StagedFile) (disk : Disk) (x : Result StoredFile × Db)
      → P x.1
      → P (row_made root facts staged disk x).1.db
  row_made_kept staged disk (ok file, d) h = h
  row_made_kept staged disk (err e, d) h = found (Store.file_by_digests staged.md5 staged.sha256 d)
    where
      found :
          (r : Result StoredFile) → P (row_found root facts (record { db = d; disk = disk }) r).1.db
      found (ok existing) = h
      found (err f) = h

  make_row_kept :
      (staged : StagedFile) (now : Time) (st : FileState) (x : Bool × Disk)
      → P st.db
      → P (make_row root facts staged now st x).1.db
  make_row_kept staged now st (false, disk) h = h
  make_row_kept staged now st (true, disk) h =
      row_made_kept staged disk
        (Store.create_file staged.md5 staged.sha256 staged.size staged.content_type
          staged.storage_key staged.original_name now st.db)
        ((create_file-Keeps staged.md5 staged.sha256 staged.size staged.content_type
            staged.storage_key staged.original_name now
            (law staged.md5 staged.sha256 staged.size staged.content_type staged.storage_key
              staged.original_name now)).at
          st.db h)

  check_sha256_kept :
      (staged : StagedFile) (fault : CommitFault) (now : Time) (st : FileState)
      (r : Result StoredFile)
      → P st.db
      → P (check_sha256 root facts staged fault now st r).1.db
  check_sha256_kept staged fault now st (ok other) h = h
  check_sha256_kept staged fault now st (err e) h =
      make_row_kept staged now st (Storage.commit root staged fault st.disk) h

  keep_known_kept :
      (staged : StagedFile) (existing : StoredFile) (st : FileState) (x : Bool × Disk)
      → P st.db
      → P (keep_known root facts staged existing st x).1.db
  keep_known_kept staged existing st (true, disk) h = h
  keep_known_kept staged existing st (false, disk) h = h

  check_digests_kept :
      (staged : StagedFile) (fault : CommitFault) (now : Time) (st : FileState)
      (r : Result StoredFile)
      → P st.db
      → P (check_digests root facts staged fault now st r).1.db
  check_digests_kept staged fault now st (err e) h =
      check_sha256_kept staged fault now st (Store.file_by_sha256 staged.sha256 st.db) h
  check_digests_kept staged fault now st (ok existing) h =
      elim (Bool-cases
        (not (text_eq existing.md5 staged.md5) || not (existing.size == staged.size))) [
          | inl wrong ↦ rw wrong h
          | inr right ↦
              rw right
                (keep_known_kept staged existing st (Storage.commit root staged fault st.disk) h)
        ]

  save_staged_kept :
      (fault : CommitFault) (now : Time) (db : Db) (x : Upload StagedFile × Disk)
      → P db
      → P (save_staged root facts fault now db x).1.db
  save_staged_kept fault now db (failed e, disk) h = h
  save_staged_kept fault now db (uploaded staged, disk) h =
      check_digests_kept staged fault now (record { db = db; disk = disk })
        (Store.file_by_digests staged.md5 staged.sha256 db) h

  pub save_kept :
      (s : Sending) (now : Time) (st : FileState)
      → P st.db
      → P (save_uploaded_file root facts s now st).1.db
  unfolding save_uploaded_file
  save_kept s now st h =
      save_staged_kept s.commit_fault now st.db
        (Storage.stage facts s.temp s.content (header_filename s.filename) s.max_bytes s.stage_fault
          st.disk)
        h
