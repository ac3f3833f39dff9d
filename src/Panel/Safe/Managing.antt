-- ===== src/Panel/Safe/Managing.antt =====
-- The handlers of the file management.
use sub_manager.Base.{
  ℕ, ◌==◌, ◌≡◌, refl, sym, subst, Bool, ltb, Option, none, some, Text, find, arith, Bool-cases, inl,
  inr,
}
use sub_manager.Base.Rows.{test_of_find}
use sub_manager.Clock.{Time}
use sub_manager.Helpers.{ValidationError, validate_subscription_metadata}
use sub_manager.Helpers.Accepted.{GoodPath, metadata_accepted}
use sub_manager.Store
use sub_manager.Store.{
  Db, FileRow, Exec, Result, ok, err, Subscription, StoredFile, is_file, scan_file,
  scan_stored_file,
}
use sub_manager.Store.Valid.{IsValid, delete_file-Keeps, replace_file_associations-Keeps}
use sub_manager.Storage
use sub_manager.Storage.{
  CleanPath, Content, FileFacts, Disk, Upload, uploaded, failed, header_filename,
}
use sub_manager.Storage.Inside.{IsRoot}
use sub_manager.Storage.Places.{IsDigest}
use sub_manager.Storage.Sound.{IsSound}
use sub_manager.Uploads.{FileState, Sending}
use sub_manager.Web.{SubscriptionForm, parse_id}
use sub_manager.Admin
use sub_manager.Admin.{Response}
use sub_manager.Panel
use sub_manager.Panel.Clean.{CleanRows}
use sub_manager.Panel.Deleted.{deleted-IsSound}
use sub_manager.Panel.Safe.Defs.{Careful, IsSafe, safe_laws, db-IsSafe}
use sub_manager.Panel.Safe.Uploading.{receive-IsSafe, create_for-Careful}

module _ (root : CleanPath) (facts : FileFacts) (links : Panel.PageLinks) (w : IsRoot root)
    (hex : (c : Content) → IsDigest (facts.sha256 c)) where
  -- The file that a handler gets is scanned from the row with its id.
  with_file-IsSafe :
      (id : Option ℕ) (handler : StoredFile → Panel.Handler) (st : FileState)
      → ((k : ℕ) (row : FileRow)
          → find (λ f. f.id == k) st.db.files ≡ some row
          → IsSafe root facts (handler (scan_stored_file st.db.subscriptions row) st).1)
      → IsSafe root facts st
      → IsSafe root facts (Panel.with_file root facts links id handler st).1
  unfolding Store.file_by_id
  with_file-IsSafe none handler st k safe = safe
  with_file-IsSafe (some id) handler st k safe = go (find (λ f. f.id == id) st.db.files) refl
    where
      go :
          (o : Option FileRow)
          → find (λ f. f.id == id) st.db.files ≡ o
          → IsSafe root facts
              (Panel.file_or root facts links st (scan_file st.db.subscriptions o) handler).1
      go none e = safe
      go (some row) e = k id row e

  replace_old-Careful :
      (old : StoredFile) (made : Time) (name : Text) (file : StoredFile)
      → Careful (Panel.replace_old root facts links old made name file)
  replace_old-Careful old made name file P laws = record {
    at = λ d h.
        go (Store.replace_file_associations old.id file.id name made d)
          ((replace_file_associations-Keeps laws old.id file.id name made).at d h);
  }
    where
      go : (x : Result ℕ × Db) → P x.1 → P (Panel.associations_answer root facts links old file x).1
      go (err e, d) h = h
      go (ok n, d) h = h

  pub replace_stored_file-IsSafe :
      (raw : Text) (upload : Option Sending) (saved made : Time) (st : FileState)
      → IsSafe root facts st
      → IsSafe root facts (Panel.replace_stored_file root facts links raw upload saved made st).1
  unfolding Panel.replace_stored_file
  replace_stored_file-IsSafe raw upload saved made st safe =
      with_file-IsSafe (parse_id raw) (Panel.replace_associated root facts links upload saved made)
        st
        (λ k row e.
          let old = scan_stored_file st.db.subscriptions row in
          elim (Bool-cases (old.association_count == 0)) [
            | inl unused ↦ rw unused safe
            | inr used ↦ rw used (
                receive-IsSafe root facts links w hex upload saved (Admin.error_page 400) _ st
                  (replace_old-Careful old made) safe)
          ])
        safe

  pub create_file_association-IsSafe :
      (raw : Text) (form : SubscriptionForm) (made : Time) (st : FileState)
      → IsSafe root facts st
      → IsSafe root facts (Panel.create_file_association root facts links raw form made st).1
  unfolding Panel.create_file_association
  create_file_association-IsSafe raw form made st safe =
      with_file-IsSafe (parse_id raw) (Panel.associate root facts links form made) st
        (λ k row e.
          go (scan_stored_file st.db.subscriptions row)
            (validate_subscription_metadata form.name form.path)
            (metadata_accepted form.name form.path))
        safe
    where
      go :
          (file : StoredFile) (e : Option ValidationError)
          → (e ≡ none → GoodPath form.path)
          → IsSafe root facts
              (Panel.on_db (Panel.associate_valid root facts links form made file e) st).1
      go file (some e) g = safe
      go file none g =
          db-IsSafe root facts (Panel.associate_valid root facts links form made file none) st
            (create_for-Careful root facts links w hex form made _ Panel.form_page
              file.original_name file (g refl))
            safe

  deleted-IsSafe :
      (k : ℕ) (row : FileRow) (refused : Bool) (st : FileState)
      → find (λ f. f.id == k) st.db.files ≡ some row
      → IsSafe root facts st
      → let file = scan_stored_file st.db.subscriptions row in
        IsSafe root facts
          (Panel.delete_answer root facts links file refused st.disk
            (Store.delete_file file.id st.db)).1
  unfolding scan_stored_file
  deleted-IsSafe k row refused st e safe =
      let same : row.id ≡ k = ground (arith, test_of_find (λ f. f.id == k) st.db.files row e) in
      let found : find (λ f. f.id == row.id) st.db.files ≡ some row =
        subst (λ n. find (λ f. f.id == n) st.db.files ≡ some row) (sym same) e in
      let (valid, (clean, present)) =
        (delete_file-Keeps (safe_laws root facts st.disk) row.id).at st.db
          (safe.valid, (safe.clean, safe.in_step.present)) in
      go (Store.delete_file row.id st.db) valid clean
        (record { addressed = safe.in_step.addressed; present = present })
        (λ done.
          deleted-IsSound root facts row.id st.db st.disk row refused w safe.valid safe.in_step
            found done)
    where
      go :
          (x : Result (Unit {0}) × Db)
          → IsValid x.1
          → CleanRows x.1
          → IsSound root facts x.1.files st.disk.blobs
          → (x.0 ≡ ok tt
              → IsSound root facts x.1.files
                  (Storage.remove_stored root row.storage_key refused st.disk).blobs)
          → IsSafe root facts
              (Panel.delete_answer root facts links
                (scan_stored_file st.db.subscriptions row)
                refused
                st.disk
                x).1
      go (err f, d) v c i g = record { valid = v; clean = c; in_step = i }
      go (ok u, d) v c i g = record { valid = v; clean = c; in_step = g refl }

  pub delete_stored_file-IsSafe :
      (raw : Text) (refused : Bool) (st : FileState)
      → IsSafe root facts st
      → IsSafe root facts (Panel.delete_stored_file root facts links raw refused st).1
  unfolding Panel.delete_stored_file
  delete_stored_file-IsSafe raw refused st safe =
      with_file-IsSafe (parse_id raw) (Panel.delete_read root facts links refused) st
        (λ k row e.
          elim (Bool-cases (ltb 0 (scan_stored_file st.db.subscriptions row).association_count)) [
            | inl used ↦ rw used safe
            | inr unused ↦ rw unused (deleted-IsSafe k row refused st e safe)
          ])
        safe
