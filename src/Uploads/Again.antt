-- ===== src/Uploads/Again.antt =====
-- Uploads of one content share one row and one blob.
use sub_manager.Base.{
  ◌+◌, ◌==◌, ==_iff, ◌≡◌, refl, subst, true, false, not, ◌&&◌, ◌||◌, Option, none, some, Text,
  text_eq, text_eq_iff, text_eq_refl, find, length, take, arith,
}
use sub_manager.Base.Rows.{All-find, test_of_find}
use sub_manager.Base.Dict.{insert}
use sub_manager.Clock.{Time}
use sub_manager.Store
use sub_manager.Store.{
  Db, FileRow, SubscriptionRow, StoredFile, Result, StoreError, ok, err, scan_stored_file,
}
use sub_manager.Store.Valid.{IsValid}
use sub_manager.Storage.{
  CleanPath, Content, Disk, FileFacts, uploaded, no_stage_fault, no_commit_fault, header_filename,
  staged_file,
}
use sub_manager.Storage.Inside.{IsRoot}
use sub_manager.Storage.Places.{IsDigest, place_of}
use sub_manager.Storage.Sound.{is_some, HasBlob}
use sub_manager.Storage.Commit.{staged_file-IsStaged, stage_good, commit_known}
use sub_manager.Uploads.{FileState, Sending, save_uploaded_file}
use sub_manager.Uploads.Stored.{InStep, save-InStep}
use sub_manager.Uploads.Found.{save_found}

-- The blob of a file that is found by its digests.
found_blob :
    (root : CleanPath) (facts : FileFacts) (st : FileState) (md5 sha : Text) (file : StoredFile)
    → InStep root facts st
    → Store.file_by_digests md5 sha st.db ≡ ok file
    → is_some (st.disk.blobs (place_of root sha)) ≡ true
unfolding Store.file_by_digests
found_blob root facts st md5 sha file i h =
    go (find (λ f. text_eq f.md5 md5 && text_eq f.sha256 sha) st.db.files) refl h
  where
    go :
        (o : Option FileRow)
        → find (λ f. text_eq f.md5 md5 && text_eq f.sha256 sha) st.db.files ≡ o
        → Store.scan_file st.db.subscriptions o ≡ ok file
        → is_some (st.disk.blobs (place_of root sha)) ≡ true
    go none e k = absurd (ground arith)
    go (some f) e k =
        let test : (text_eq f.md5 md5 && text_eq f.sha256 sha) ≡ true =
          test_of_find (λ f. text_eq f.md5 md5 && text_eq f.sha256 sha) st.db.files f e in
        let same : f.sha256 ≡ sha = (text_eq_iff f.sha256 sha).0 (ground arith) in
        let blob =
          All-find (HasBlob root facts st.disk.blobs)
            (λ f. text_eq f.md5 md5 && text_eq f.sha256 sha) st.db.files f e i.present in
        subst (λ t. is_some (st.disk.blobs (place_of root t)) ≡ true) same blob.2

-- A content that was uploaded once is not stored again. With a rooted path to the files directory,
-- 64 hex digits in a SHA-256, a valid database and the directory in step with it: after an upload
-- that returned a file, another one of the same content and limit, under whatever name and at
-- whatever time, returns the same file if the system refuses nothing, and changes neither the
-- database nor the stored blobs.
pub save_again :
    (root : CleanPath) (facts : FileFacts) (s t : Sending) (now later : Time) (st : FileState)
    (file : StoredFile)
    → IsRoot root
    → ((c : Content) → IsDigest (facts.sha256 c))
    → IsValid st.db
    → InStep root facts st
    → (save_uploaded_file root facts s now st).0 ≡ uploaded file
    → t.content ≡ s.content
    → t.max_bytes ≡ s.max_bytes
    → t.stage_fault ≡ no_stage_fault
    → t.commit_fault ≡ no_commit_fault
    → let first = (save_uploaded_file root facts s now st).1 in
      let (again, second) = save_uploaded_file root facts t later first in
      (again ≡ uploaded file) × (second.db ≡ first.db) × (second.disk.blobs ≡ first.disk.blobs)
save_again root facts s t now later st file w hex v i h content limit no_stage no_commit =
    let first = (save_uploaded_file root facts s now st).1 in
    let (found, md5, size, full, within) = save_found root facts s now st file v hex h in
    let j : InStep root facts first = save-InStep root facts s now st w hex i in
    let written = take (s.max_bytes + 1) s.content in
    let staged = staged_file facts t.temp (header_filename t.filename) written in
    let disk : Disk = record (first.disk) { temps = insert t.temp written first.disk.temps } in
    let kept =
      commit_known root facts staged disk w
        (staged_file-IsStaged root facts t.temp written (header_filename t.filename) first.disk
          (hex written))
        (found_blob root facts first (facts.md5 written) (facts.sha256 written) file j found) in
    let right : (not (text_eq file.md5 staged.md5) || not (file.size == staged.size)) ≡ false =
      rw
        (
          md5,
          size,
          text_eq_refl (facts.md5 written),
          (==_iff (length written) (length written)).1 refl,
        )
        refl in
    unfold save_uploaded_file in
    rw
      (
        content,
        limit,
        no_stage,
        no_commit,
        stage_good root facts t.temp s.content (header_filename t.filename) s.max_bytes first.disk
            full within,
        found,
        right,
        kept,
      )
      (refl, refl, refl)
