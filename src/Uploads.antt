-- ===== src/Uploads.antt =====
-- `saveUploadedFile` of internal/app/handlers_files.go: the files directory and the table `files`
-- together. The section under `fileMu` is one step. The instant is that of `CreateFile`.
pub mod Stored
pub mod Found
pub mod Again
pub mod Kept
mod Tests
use sub_manager.Base.{
  ℕ, ◌==◌, Bool, true, false, not, ◌&&◌, ◌||◌, Option, none, some, Text, text_eq, if◌then◌else◌,
}
use sub_manager.Clock.{Time}
use sub_manager.Store
use sub_manager.Store.{Db, StoredFile, Result, ok, err}
use sub_manager.Storage
use sub_manager.Storage.{
  CleanPath, Content, Disk, FileFacts, StagedFile, Upload, uploaded, failed, save_failed,
  StageFault, CommitFault, header_filename,
}

pub record FileState : Type 0 where
  pub db : Db
  pub disk : Disk

-- What a browser sends for a file, and what the system does with it: the name of the temporary file,
-- the content, the name in the form, the limit, and the faults.
pub record Sending : Type 0 where
  pub temp : Text
  pub content : Content
  pub filename : Option Text
  pub max_bytes : ℕ
  pub stage_fault : StageFault
  pub commit_fault : CommitFault

module _ (root : CleanPath) (facts : FileFacts) where
  -- Giving up once the file is staged.
  abbrev pub give_up : StagedFile → FileState → Upload StoredFile × FileState
  give_up staged st = (failed save_failed, record st { disk = Storage.discard staged st.disk })

  abbrev pub keep_known :
      StagedFile → StoredFile → FileState → Bool × Disk → Upload StoredFile × FileState
  keep_known staged existing st (true, disk) = (uploaded existing, record st { disk = disk })
  keep_known staged existing st (false, disk) = give_up staged (record st { disk = disk })

  -- On an error of the database the blob stays; another process may have made the row.
  abbrev pub row_found : FileState → Result StoredFile → Upload StoredFile × FileState
  row_found st (ok existing) = (uploaded existing, st)
  row_found st (err e) = (failed save_failed, st)

  abbrev pub row_made : StagedFile → Disk → Result StoredFile × Db → Upload StoredFile × FileState
  row_made staged disk (ok file, d) = (uploaded file, record { db = d; disk = disk })
  row_made staged disk (err e, d) =
      row_found (record { db = d; disk = disk }) (Store.file_by_digests staged.md5 staged.sha256 d)

  abbrev pub make_row : StagedFile → Time → FileState → Bool × Disk → Upload StoredFile × FileState
  make_row staged now st (false, disk) = give_up staged (record st { disk = disk })
  make_row staged now st (true, disk) = row_made staged disk (
      Store.create_file staged.md5 staged.sha256 staged.size staged.content_type staged.storage_key
        staged.original_name now st.db)

  abbrev pub check_sha256 :
      StagedFile
      → CommitFault
      → Time
      → FileState
      → Result StoredFile
      → Upload StoredFile × FileState
  check_sha256 staged fault now st (ok other) = give_up staged st
  check_sha256 staged fault now st (err e) =
      make_row staged now st (Storage.commit root staged fault st.disk)

  abbrev pub check_digests :
      StagedFile
      → CommitFault
      → Time
      → FileState
      → Result StoredFile
      → Upload StoredFile × FileState
  check_digests staged fault now st (ok existing) =
      if not (text_eq existing.md5 staged.md5) || not (existing.size == staged.size)
      then give_up staged st
      else keep_known staged existing st (Storage.commit root staged fault st.disk)
  check_digests staged fault now st (err e) =
      check_sha256 staged fault now st (Store.file_by_sha256 staged.sha256 st.db)

  abbrev pub save_staged :
      CommitFault → Time → Db → Upload StagedFile × Disk → Upload StoredFile × FileState
  save_staged fault now db (failed e, disk) = (failed e, record { db = db; disk = disk })
  save_staged fault now db (uploaded staged, disk) =
      check_digests staged fault now (record { db = db; disk = disk })
        (Store.file_by_digests staged.md5 staged.sha256 db)

  unfoldable pub save_uploaded_file : Sending → Time → FileState → Upload StoredFile × FileState
  save_uploaded_file s now st = save_staged s.commit_fault now st.db (
      Storage.stage facts s.temp s.content (header_filename s.filename) s.max_bytes s.stage_fault
        st.disk)
