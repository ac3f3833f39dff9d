-- ===== src/Panel/Requests.antt =====
-- The requests to these handlers as data. An instant
-- is given for each call of the store that reads the clock.
use sub_manager.Base.{Bool, Option, List, Text, codes, text_eq, if◌then◌else◌}
use sub_manager.Clock.{Time}
use sub_manager.Storage.{CleanPath, FileFacts}
use sub_manager.Uploads.{Sending}
use sub_manager.Web.{RawForm, SubscriptionForm, subscription_from_form}
use sub_manager.Panel.Subscriptions.{
  create_text, handle_update_subscription, handle_delete_subscription, toggle_subscription,
  batch_content, clear_subscription_logs,
}
use sub_manager.Panel.Files.{
  Handler, on_db, PageLinks, create_uploaded, handle_replace_subscription_file,
  handle_detach_subscription_file, replace_stored_file, create_file_association, delete_stored_file,
}

pub data Request : Type 0 where
  post_subscription : RawForm → Option Sending → Time → Time → Request
  post_update : Text → RawForm → Time → Request
  post_delete post_clear_logs : Text → Request
  post_toggle post_detach : Text → Time → Request
  post_batch : List Text → Text → Time → Request
  post_subscription_file post_replace : Text → Option Sending → Time → Time → Request
  post_association : Text → RawForm → Time → Request
  post_delete_file : Text → Bool → Request

module _ (root : CleanPath) (facts : FileFacts) (links : PageLinks) where
  unfoldable pub handle_create_subscription :
      SubscriptionForm → Option Sending → Time → Time → Handler
  handle_create_subscription form upload saved made st =
      if text_eq form.kind (codes "file")
      then create_uploaded root facts links form upload saved made st
      else on_db (create_text form made) st

  -- The handler that the router has for each request, behind its guards.
  unfoldable pub handle : Request → Handler
  handle (post_subscription form upload saved made) st =
      handle_create_subscription (subscription_from_form form) upload saved made st
  handle (post_update id form now) st =
      on_db (handle_update_subscription id (subscription_from_form form) now) st
  handle (post_delete id) st = on_db (handle_delete_subscription id) st
  handle (post_clear_logs id) st = on_db (clear_subscription_logs id links.logs_page) st
  handle (post_toggle id now) st = on_db (toggle_subscription id now) st
  handle (post_detach id now) st =
      on_db (handle_detach_subscription_file root facts links id now) st
  handle (post_batch ids content now) st = on_db (batch_content ids content now) st
  handle (post_subscription_file id upload saved made) st =
      handle_replace_subscription_file root facts links id upload saved made st
  handle (post_replace id upload saved made) st =
      replace_stored_file root facts links id upload saved made st
  handle (post_association id form now) st =
      create_file_association root facts links id (subscription_from_form form) now st
  handle (post_delete_file id refused) st = delete_stored_file root facts links id refused st
