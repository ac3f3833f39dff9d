-- ===== src/Panel/Files.antt =====
-- The handlers of handlers_files.go. `Option Sending` is what `FormFile` gives, or its error.
use sub_manager.Base.{ℕ, ◌==◌, ltb, Bool, not, Option, none, some, Text, codes, if◌then◌else◌}
use sub_manager.Clock.{Time}
use sub_manager.Helpers.{ValidationError, validate_subscription_metadata}
use sub_manager.Store
use sub_manager.Store.{
  Db, Subscription, StoredFile, file_subscription, is_file, Result, StoreError, ok, err, no_rows,
  no_file_associations,
}
use sub_manager.Storage
use sub_manager.Storage.{
  CleanPath, Content, Disk, FileFacts, Upload, uploaded, failed, header_filename,
}
use sub_manager.Uploads.{FileState, Sending, save_uploaded_file}
use sub_manager.Web.{SubscriptionForm, name_or_path, parse_id, subscription_list_url}
use sub_manager.Admin.{Response, redirect, error_page}
use sub_manager.Panel.Subscriptions.{DbHandler, form_page, respond, load_subscription}

abbrev pub Handler : Type 0
Handler = FileState → Response × FileState

-- A handler of the database alone.
abbrev pub with_disk : Disk → Response × Db → Response × FileState
with_disk disk (r, d) = (r, record { db = d; disk = disk })

abbrev pub on_db : DbHandler → Handler
on_db handler st = with_disk st.disk (handler st.db)

-- The links to the pages of a subscription and of a file, with a message.
pub record PageLinks : Type 0 where
  pub subscription_page : ℕ → Text → Text
  pub file_page : ℕ → Text → Text
  pub logs_page : ℕ → Text

-- What follows an upload: the response to its error, or a method of the database with the file.
abbrev pub after_upload :
    Response → (StoredFile → DbHandler) → Upload StoredFile × FileState → Response × FileState
after_upload bad handler (failed e, st) = (bad, st)
after_upload bad handler (uploaded file, st) = on_db (handler file) st

module _ (root : CleanPath) (facts : FileFacts) (links : PageLinks) where
  abbrev pub receive : Option Sending → Time → Response → (Text → StoredFile → DbHandler) → Handler
  receive none saved bad handler st = (bad, st)
  receive (some s) saved bad handler st =
      after_upload bad (handler (header_filename s.filename))
        (save_uploaded_file root facts s saved st)

  -- CreateFileSubscription for the file that was received.
  abbrev pub create_for :
      SubscriptionForm → Time → Response → Response → Text → StoredFile → DbHandler
  create_for form made good bad download_name file d = respond good bad (
      Store.create_file_subscription (name_or_path form.name form.path) form.path file.id
        download_name form.enabled made d)

  abbrev pub create_valid :
      SubscriptionForm → Option Sending → Time → Time → Option ValidationError → Handler
  create_valid form upload saved made (some e) st = (form_page, st)
  create_valid form upload saved made none st =
      receive upload saved form_page
        (create_for form made (redirect (subscription_list_url file_subscription (codes "created")))
          form_page)
        st

  -- `createUploadedFileSubscription`
  unfoldable pub create_uploaded : SubscriptionForm → Option Sending → Time → Time → Handler
  create_uploaded form upload saved made st =
      create_valid form upload saved made (validate_subscription_metadata form.name form.path) st

  abbrev pub loaded_or :
      FileState → Result Subscription → (Subscription → Handler) → Response × FileState
  loaded_or st (err e) handler = (error_page 404, st)
  loaded_or st (ok sub) handler = handler sub st

  abbrev pub with_subscription : Option ℕ → (Subscription → Handler) → Handler
  with_subscription none handler st = (error_page 404, st)
  with_subscription (some id) handler st = loaded_or st (Store.subscription_by_id id st.db) handler

  abbrev pub replace_with : Subscription → Time → Text → StoredFile → DbHandler
  replace_with sub made download_name file d =
      respond (redirect (links.subscription_page sub.id (codes "file-replaced"))) (error_page 500)
        (Store.replace_subscription_file sub.id file.id download_name made d)

  abbrev pub replace_loaded : Option Sending → Time → Time → Subscription → Handler
  replace_loaded upload saved made sub st =
      if not (is_file sub.kind)
      then (error_page 404, st)
      else receive upload saved (error_page 400) (replace_with sub made) st

  unfoldable pub handle_replace_subscription_file : Text → Option Sending → Time → Time → Handler
  handle_replace_subscription_file raw_id upload saved made st =
      with_subscription (parse_id raw_id) (replace_loaded upload saved made) st

  abbrev pub detach_loaded : Time → Subscription → DbHandler
  detach_loaded now sub d =
      if not (is_file sub.kind)
      then (error_page 404, d)
      else respond (redirect (links.subscription_page sub.id (codes "file-detached")))
          (error_page 500) (Store.detach_subscription_file sub.id now d)

  unfoldable pub handle_detach_subscription_file : Text → Time → DbHandler
  handle_detach_subscription_file raw_id now = load_subscription raw_id (detach_loaded now)

  abbrev pub file_or : FileState → Result StoredFile → (StoredFile → Handler) → Response × FileState
  file_or st (err e) handler = (error_page 404, st)
  file_or st (ok file) handler = handler file st

  -- `loadStoredFile`, and the handler of the file.
  abbrev pub with_file : Option ℕ → (StoredFile → Handler) → Handler
  with_file none handler st = (error_page 404, st)
  with_file (some id) handler st = file_or st (Store.file_by_id id st.db) handler

  abbrev pub association_error : StoreError → Response
  association_error no_rows = error_page 409
  association_error no_file_associations = error_page 409
  association_error _ = error_page 500

  abbrev pub associations_answer : StoredFile → StoredFile → Result ℕ × Db → Response × Db
  associations_answer old file (err e, d) = (association_error e, d)
  associations_answer old file (ok n, d) = (
    redirect (
        links.file_page file.id (
          if old.id == file.id
          then codes "file-unchanged"
          else codes "file-associations-replaced")),
    d,
  )

  abbrev pub replace_old : StoredFile → Time → Text → StoredFile → DbHandler
  replace_old old made download_name file d =
      associations_answer old file
        (Store.replace_file_associations old.id file.id download_name made d)

  abbrev pub replace_associated : Option Sending → Time → Time → StoredFile → Handler
  replace_associated upload saved made old st =
      if old.association_count == 0
      then (error_page 409, st)
      else receive upload saved (error_page 400) (replace_old old made) st

  unfoldable pub replace_stored_file : Text → Option Sending → Time → Time → Handler
  replace_stored_file raw_id upload saved made st =
      with_file (parse_id raw_id) (replace_associated upload saved made) st

  abbrev pub associate_valid :
      SubscriptionForm → Time → StoredFile → Option ValidationError → DbHandler
  associate_valid form made file (some e) d = (form_page, d)
  associate_valid form made file none d =
      create_for form made (redirect (links.file_page file.id (codes "association-created")))
        form_page file.original_name file d

  abbrev pub associate : SubscriptionForm → Time → StoredFile → Handler
  associate form made file st =
      on_db (associate_valid form made file (validate_subscription_metadata form.name form.path)) st

  unfoldable pub create_file_association : Text → SubscriptionForm → Time → Handler
  create_file_association raw_id form made st = with_file (parse_id raw_id) (associate form made) st

  abbrev pub delete_answer :
      StoredFile → Bool → Disk → Result (Unit {0}) × Db → Response × FileState
  delete_answer file refused disk (err e, d) = (error_page 409, record { db = d; disk = disk })
  delete_answer file refused disk (ok u, d) = (
    redirect (codes "/admin/files?message=file-deleted"),
    record { db = d; disk = Storage.remove_stored root file.storage_key refused disk },
  )

  -- The file is read again under `fileMu`; here both reads are of the same state.
  abbrev pub delete_read : Bool → StoredFile → Handler
  delete_read refused file st =
      if ltb 0 file.association_count
      then (error_page 409, st)
      else delete_answer file refused st.disk (Store.delete_file file.id st.db)

  -- `refused` is an error of the system in `Remove`.
  unfoldable pub delete_stored_file : Text → Bool → Handler
  delete_stored_file raw_id refused st = with_file (parse_id raw_id) (delete_read refused) st
