-- ===== src/Panel/Safe.antt =====
-- Every request keeps the database and the files directory well formed and in step.
mod Defs
mod Uploading
mod Managing
pub use Defs.{IsSafe, AllBlobs, safe_laws, of_laws}
use sub_manager.Base.{
  Bool, true, false, Option, List, [], ◌∷◌, Text, codes, text_eq, arith, if◌then◌else◌, Bool-cases,
  inl, inr,
}
use sub_manager.Clock.{Time}
use sub_manager.Storage.{CleanPath, Content, FileFacts}
use sub_manager.Storage.Inside.{IsRoot}
use sub_manager.Storage.Places.{IsDigest}
use sub_manager.Uploads.{FileState, Sending}
use sub_manager.Web.{SubscriptionForm, subscription_from_form}
use sub_manager.Panel
use sub_manager.Panel.{Request}
use sub_manager.Panel.Kept.{
  create_text-HandlerKeeps, update_subscription-HandlerKeeps, delete_subscription-HandlerKeeps,
  toggle_subscription-HandlerKeeps, batch_content-HandlerKeeps, clear_logs-HandlerKeeps,
}
use sub_manager.Panel.Safe.Defs.{db-IsSafe}
use sub_manager.Panel.Safe.Uploading.{
  create_uploaded-IsSafe, replace_subscription_file-IsSafe, detach_subscription_file-Careful,
}
use sub_manager.Panel.Safe.Managing.{
  replace_stored_file-IsSafe, create_file_association-IsSafe, delete_stored_file-IsSafe,
}

module _ (root : CleanPath) (facts : FileFacts) (links : Panel.PageLinks) where
  create_subscription-IsSafe :
      (form : SubscriptionForm) (upload : Option Sending) (saved made : Time) (st : FileState)
      → IsRoot root
      → ((c : Content) → IsDigest (facts.sha256 c))
      → IsSafe root facts st
      → IsSafe root facts
          (Panel.handle_create_subscription root facts links form upload saved made st).1
  unfolding Panel.handle_create_subscription
  create_subscription-IsSafe form upload saved made st w hex safe =
      elim (Bool-cases (text_eq form.kind (codes "file"))) [
        | inl file ↦
            rw file (create_uploaded-IsSafe root facts links w hex form upload saved made st safe)
        | inr text ↦ rw text (
            db-IsSafe root facts (Panel.create_text form made) st
              (λ P laws. create_text-HandlerKeeps laws form made) safe)
      ]

  pub handle-IsSafe :
      (r : Request) (st : FileState)
      → IsRoot root
      → ((c : Content) → IsDigest (facts.sha256 c))
      → IsSafe root facts st
      → IsSafe root facts (Panel.handle root facts links r st).1
  unfolding Panel.handle
  handle-IsSafe (Request.post_subscription form upload saved made) st w hex safe =
      create_subscription-IsSafe (subscription_from_form form) upload saved made st w hex safe
  handle-IsSafe (Request.post_update id form now) st w hex safe =
      db-IsSafe root facts (Panel.handle_update_subscription id (subscription_from_form form) now)
        st (λ P laws. update_subscription-HandlerKeeps laws id (subscription_from_form form) now)
        safe
  handle-IsSafe (Request.post_delete id) st w hex safe =
      db-IsSafe root facts (Panel.handle_delete_subscription id) st
        (λ P laws. delete_subscription-HandlerKeeps laws id) safe
  handle-IsSafe (Request.post_clear_logs id) st w hex safe =
      db-IsSafe root facts (Panel.clear_subscription_logs id links.logs_page) st
        (λ P laws. clear_logs-HandlerKeeps laws id links.logs_page) safe
  handle-IsSafe (Request.post_toggle id now) st w hex safe =
      db-IsSafe root facts (Panel.toggle_subscription id now) st
        (λ P laws. toggle_subscription-HandlerKeeps laws id now) safe
  handle-IsSafe (Request.post_detach id now) st w hex safe =
      db-IsSafe root facts (Panel.handle_detach_subscription_file root facts links id now) st
        (detach_subscription_file-Careful root facts links w hex id now) safe
  handle-IsSafe (Request.post_batch ids content now) st w hex safe =
      db-IsSafe root facts (Panel.batch_content ids content now) st
        (λ P laws. batch_content-HandlerKeeps laws ids content now) safe
  handle-IsSafe (Request.post_subscription_file id upload saved made) st w hex safe =
      replace_subscription_file-IsSafe root facts links w hex id upload saved made st safe
  handle-IsSafe (Request.post_replace id upload saved made) st w hex safe =
      replace_stored_file-IsSafe root facts links w hex id upload saved made st safe
  handle-IsSafe (Request.post_association id form now) st w hex safe =
      create_file_association-IsSafe root facts links w hex id (subscription_from_form form) now st
        safe
  handle-IsSafe (Request.post_delete_file id refused) st w hex safe =
      delete_stored_file-IsSafe root facts links w hex id refused st safe
