-- ===== src/Panel/Safe/Defs.antt =====
-- What holds of the database and the files directory together, and that an upload keeps it.
use sub_manager.Clock.{Time}
use sub_manager.Helpers.Accepted.{GoodPath, GoodContent}
use sub_manager.Store
use sub_manager.Store.{
  Db, FileRow, Exec, Result, ok, err, Subscription, StoredFile, is_file, scan_file,
  scan_stored_file,
}
use sub_manager.Store.Valid.{IsValid, RowLaws, Both, Both-RowLaws}
use sub_manager.Store.Valid.History.{IsValid-rows, IsValid-laws}
use sub_manager.Storage.{CleanPath, Content, FileFacts, Disk}
use sub_manager.Storage.Inside.{IsRoot}
use sub_manager.Storage.Places.{IsDigest}
use sub_manager.Storage.Sound.{HasBlob}
use sub_manager.Uploads.{FileState, Sending, save_uploaded_file}
use sub_manager.Uploads.Stored.{InStep, save-InStep}
use sub_manager.Uploads.Kept.{save_kept}
use sub_manager.Panel
use sub_manager.Panel.Clean.{
  CleanRows, CleanRows-laws, insert_file-CleanRows, AllFiles, AllFiles-laws,
}
use sub_manager.Panel.Kept.{HandlerKeeps}

-- A handler of the database that keeps whatever the statements keep.
abbrev pub Careful : Panel.DbHandler → Type 1
Careful h = (P : Db → Type 0) → RowLaws P GoodPath GoodContent → HandlerKeeps P h

module _ (root : CleanPath) (facts : FileFacts) where
  -- The tables are well formed, every subscription has a good path and good content, and the files
  -- directory is in step with the table of files.
  pub record IsSafe (st : FileState) : Type 0 where
    pub valid : IsValid st.db
    pub clean : CleanRows st.db
    pub in_step : InStep root facts st

  abbrev pub AllBlobs : Disk → Db → Type 0
  AllBlobs disk = AllFiles (HasBlob root facts disk.blobs) (λ f now ip h. h)

  pub safe_laws :
      (disk : Disk) → RowLaws (Both IsValid (Both CleanRows (AllBlobs disk))) GoodPath GoodContent
  safe_laws disk = Both-RowLaws IsValid (Both CleanRows (AllBlobs disk)) IsValid-rows (
      Both-RowLaws CleanRows (AllBlobs disk) CleanRows-laws
        (AllFiles-laws (HasBlob root facts disk.blobs) (λ f now ip h. h)))

  -- What keeps all that the statements keep keeps the state safe.
  pub of_laws :
      (st : FileState) (d : Db)
      → ((P : Db → Type 0) → RowLaws P GoodPath GoodContent → P st.db → P d)
      → IsSafe st
      → IsSafe (record { db = d; disk = st.disk })
  of_laws st d kept s =
      let (valid, (clean, present)) =
        kept (Both IsValid (Both CleanRows (AllBlobs st.disk))) (safe_laws st.disk)
          (s.valid, (s.clean, s.in_step.present)) in
      record {
        valid = valid;
        clean = clean;
        in_step = record { addressed = s.in_step.addressed; present = present };
      }

  pub db-IsSafe :
      (handler : Panel.DbHandler) (st : FileState)
      → Careful handler
      → IsSafe st
      → IsSafe (Panel.on_db handler st).1
  db-IsSafe handler st careful s =
      of_laws st (handler st.db).1 (λ P laws h. (careful P laws).at st.db h) s

  pub save-IsSafe :
      (s : Sending) (now : Time) (st : FileState)
      → IsRoot root
      → ((c : Content) → IsDigest (facts.sha256 c))
      → IsSafe st
      → IsSafe (save_uploaded_file root facts s now st).1
  save-IsSafe s now st w hex safe = record {
    valid = save_kept root facts IsValid IsValid-laws.file_inserted s now st safe.valid;
    clean =
        save_kept root facts CleanRows
          (λ md5 sha size content_type key name made.
            insert_file-CleanRows (Store.new_file md5 sha size content_type key name made))
          s now st safe.clean;
    in_step = save-InStep root facts s now st w hex safe.in_step;
  }
