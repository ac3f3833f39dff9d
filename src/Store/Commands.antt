-- ===== src/Store/Commands.antt =====
-- The calls of the methods of `Store` that may change the database, as data, so that a history of
-- the program is a list of them.
use sub_manager.Base.{ℕ, Bool, List, [], ◌∷◌, Text}
use sub_manager.Clock.{Time}
use sub_manager.Store.Tables.{Db}
use sub_manager.Store.Subscriptions.{
  Subscription, create_subscription, create_file_subscription, update_subscription,
  update_file_subscription, delete_subscription, set_subscription_enabled, batch_update_content,
}
use sub_manager.Store.FileLinks.{
  replace_subscription_file, replace_file_associations, detach_subscription_file,
}
use sub_manager.Store.Access.{record_access, clear_access_logs, cleanup_logs}
use sub_manager.Store.Files.{create_file, delete_file}
use sub_manager.Store.Sessions.{
  change_password, update_settings, create_session, delete_session, purge_expired_sessions,
}

pub data Command : Type 0 where
  password_change : Text → Command
  settings_update : ℕ → Text → Command
  session_create : Text → Text → ℕ → Time → Command
  session_delete : Text → Command
  session_purge : Command
  subscription_create : Text → Text → Text → Bool → Command
  file_subscription_create : Text → Text → ℕ → Text → Bool → Command
  subscription_update : ℕ → Text → Text → Text → Bool → Command
  file_subscription_update : ℕ → Text → Text → Bool → Command
  file_replace : ℕ → ℕ → Text → Command
  associations_replace : ℕ → ℕ → Text → Command
  file_detach : ℕ → Command
  subscription_delete : ℕ → Command
  enabled_set : ℕ → Bool → Command
  batch_update : List ℕ → Text → Command
  access_record : Subscription → ℕ → Text → Text → Text → Text → ℕ → Command
  file_create : Text → Text → ℕ → Text → Text → Text → Command
  file_delete : ℕ → Command
  logs_clear : ℕ → Command
  logs_cleanup : ℕ → Command

-- The database after a call at the instant `now`.
unfoldable pub run : (Text → Text) → Command → Time → Db → Db
run hash (password_change a) now db = (change_password a db).1
run hash (settings_update a b) now db = (update_settings a b db).1
run hash (session_create a b c d) now db = (create_session hash a b c d now db).1
run hash (session_delete a) now db = (delete_session hash a db).1
run hash session_purge now db = (purge_expired_sessions now db).1
run hash (subscription_create a b c d) now db = (create_subscription a b c d now db).1
run hash (file_subscription_create a b c d e) now db = (create_file_subscription a b c d e now db).1
run hash (subscription_update a b c d e) now db = (update_subscription a b c d e now db).1
run hash (file_subscription_update a b c d) now db = (update_file_subscription a b c d now db).1
run hash (file_replace a b c) now db = (replace_subscription_file a b c now db).1
run hash (associations_replace a b c) now db = (replace_file_associations a b c now db).1
run hash (file_detach a) now db = (detach_subscription_file a now db).1
run hash (subscription_delete a) now db = (delete_subscription a db).1
run hash (enabled_set a b) now db = (set_subscription_enabled a b now db).1
run hash (batch_update a b) now db = (batch_update_content a b now db).1
run hash (access_record a b c d e f g) now db = (record_access a b c d e f g now db).1
run hash (file_create a b c d e f) now db = (create_file a b c d e f now db).1
run hash (file_delete a) now db = (delete_file a db).1
run hash (logs_clear a) now db = (clear_access_logs a db).1
run hash (logs_cleanup a) now db = (cleanup_logs a now db).1

-- Calls one after another, each at its instant.
unfoldable pub run_all : (Text → Text) → List (Command × Time) → Db → Db
run_all hash [] db = db
run_all hash ((c, now) ∷ cs) db = run_all hash cs (run hash c now db)
