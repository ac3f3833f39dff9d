-- ===== src/Panel/Safe/Uploading.antt =====
-- The handlers that receive a file for a subscription, or take it away.
use sub_manager.Base.{ℕ, ◌≡◌, refl, not, Option, none, some, Text, Bool-cases, inl, inr}
use sub_manager.Clock.{Time}
use sub_manager.Helpers.{ValidationError, validate_subscription_metadata}
use sub_manager.Helpers.Accepted.{GoodPath, metadata_accepted}
use sub_manager.Store
use sub_manager.Store.{
  Db, FileRow, Exec, Result, ok, err, Subscription, StoredFile, is_file, scan_file,
  scan_stored_file,
}
use sub_manager.Store.Valid.{detach_subscription_file-Keeps, replace_subscription_file-Keeps}
use sub_manager.Storage.{CleanPath, Content, FileFacts, Upload, uploaded, failed, header_filename}
use sub_manager.Storage.Inside.{IsRoot}
use sub_manager.Storage.Places.{IsDigest}
use sub_manager.Uploads.{FileState, Sending, save_uploaded_file}
use sub_manager.Web.{SubscriptionForm, name_or_path, parse_id}
use sub_manager.Admin
use sub_manager.Admin.{Response}
use sub_manager.Panel
use sub_manager.Panel.Kept.{keeps-respond, keeps-load_subscription, keeps-if}
use sub_manager.Panel.Safe.Defs.{Careful, IsSafe, db-IsSafe, save-IsSafe}

module _ (root : CleanPath) (facts : FileFacts) (links : Panel.PageLinks) (w : IsRoot root)
    (hex : (c : Content) → IsDigest (facts.sha256 c)) where
  pub receive-IsSafe :
      (upload : Option Sending) (saved : Time) (bad : Response)
      (handler : Text → StoredFile → Panel.DbHandler) (st : FileState)
      → ((name : Text) (file : StoredFile) → Careful (handler name file))
      → IsSafe root facts st
      → IsSafe root facts (Panel.receive root facts links upload saved bad handler st).1
  receive-IsSafe none saved bad handler st careful safe = safe
  receive-IsSafe (some s) saved bad handler st careful safe =
      go (save_uploaded_file root facts s saved st) (save-IsSafe root facts s saved st w hex safe)
    where
      go :
          (x : Upload StoredFile × FileState)
          → IsSafe root facts x.1
          → IsSafe root facts (Panel.after_upload bad (handler (header_filename s.filename)) x).1
      go (failed e, st') h = h
      go (uploaded file, st') h =
          db-IsSafe root facts (handler (header_filename s.filename) file) st'
            (careful (header_filename s.filename) file) h

  pub create_for-Careful :
      (form : SubscriptionForm) (made : Time) (good bad : Response) (name : Text)
      (file : StoredFile)
      → GoodPath form.path
      → Careful (Panel.create_for root facts links form made good bad name file)
  create_for-Careful form made good bad name file path P laws =
      keeps-respond good bad
        (Store.create_file_subscription (name_or_path form.name form.path) form.path file.id name
          form.enabled made)
        (laws.file_subscription_created (name_or_path form.name form.path) form.path file.id name
          form.enabled made path)

  pub create_uploaded-IsSafe :
      (form : SubscriptionForm) (upload : Option Sending) (saved made : Time) (st : FileState)
      → IsSafe root facts st
      → IsSafe root facts (Panel.create_uploaded root facts links form upload saved made st).1
  unfolding Panel.create_uploaded
  create_uploaded-IsSafe form upload saved made st safe =
      go (validate_subscription_metadata form.name form.path)
        (metadata_accepted form.name form.path)
    where
      go :
          (e : Option ValidationError)
          → (e ≡ none → GoodPath form.path)
          → IsSafe root facts (Panel.create_valid root facts links form upload saved made e st).1
      go (some e) g = safe
      go none g =
          receive-IsSafe upload saved Panel.form_page _ st
            (λ name file. create_for-Careful form made _ Panel.form_page name file (g refl)) safe

  replace_with-Careful :
      (sub : Subscription) (made : Time) (name : Text) (file : StoredFile)
      → Careful (Panel.replace_with root facts links sub made name file)
  replace_with-Careful sub made name file P laws =
      keeps-respond _ _ (Store.replace_subscription_file sub.id file.id name made)
        (replace_subscription_file-Keeps laws sub.id file.id name made)

  with_subscription-IsSafe :
      (id : Option ℕ) (handler : Subscription → Panel.Handler) (st : FileState)
      → ((sub : Subscription) → IsSafe root facts (handler sub st).1)
      → IsSafe root facts st
      → IsSafe root facts (Panel.with_subscription root facts links id handler st).1
  with_subscription-IsSafe none handler st k safe = safe
  with_subscription-IsSafe (some id) handler st k safe = go (Store.subscription_by_id id st.db)
    where
      go :
          (r : Result Subscription)
          → IsSafe root facts (Panel.loaded_or root facts links st r handler).1
      go (err e) = safe
      go (ok sub) = k sub

  pub replace_subscription_file-IsSafe :
      (raw : Text) (upload : Option Sending) (saved made : Time) (st : FileState)
      → IsSafe root facts st
      → IsSafe root facts
          (Panel.handle_replace_subscription_file root facts links raw upload saved made st).1
  unfolding Panel.handle_replace_subscription_file
  replace_subscription_file-IsSafe raw upload saved made st safe =
      with_subscription-IsSafe (parse_id raw)
        (Panel.replace_loaded root facts links upload saved made) st
        (λ sub. elim (Bool-cases (is_file sub.kind)) [
          | inr text ↦ rw text safe
          | inl file ↦ rw file (
              receive-IsSafe upload saved (Admin.error_page 400) _ st
                (replace_with-Careful sub made) safe)
        ])
        safe

  pub detach_subscription_file-Careful :
      (raw : Text) (now : Time)
      → Careful (Panel.handle_detach_subscription_file root facts links raw now)
  unfolding Panel.handle_detach_subscription_file
  detach_subscription_file-Careful raw now P laws =
      keeps-load_subscription raw (Panel.detach_loaded root facts links now) (λ sub.
        keeps-if (not (is_file sub.kind)) _ _ (record { at = λ d h. h })
          (keeps-respond _ _ (Store.detach_subscription_file sub.id now)
            (detach_subscription_file-Keeps laws sub.id now)))
