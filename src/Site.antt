-- ===== src/Site.antt =====
-- The whole program: internal/app/app.go, `Handler` and `cleanupLoop`, over the parts that the other
-- modules model. A visit is a request to one of the routes that may change something, or a turn of the
-- cleanup; it holds what the request carries, the random tokens and the instants that its handler reads.
-- The client's address is resolved first, as the middleware does.
pub mod Kept
mod Untouched
pub mod Strangers
mod Tests
use sub_manager.Base.{ℕ, Bool, Option, none, some, List, [], ◌∷◌, ◌++◌, String, Text, codes}
use sub_manager.Clock.{Time}
use sub_manager.Helpers.{Client}
use sub_manager.Limiter.{LoginLimiter}
use sub_manager.ClientIp
use sub_manager.ClientIp.{NetipText, Header, ClientIpResolver}
use sub_manager.Store
use sub_manager.Store.{Db}
use sub_manager.Storage.{CleanPath, FileFacts, Disk}
use sub_manager.Uploads.{FileState}
use sub_manager.Admin
use sub_manager.Admin.{
  App, Response, Reply, reply, AuthContext, Gate, pass, stop, then_csrf, require_admin,
}
use sub_manager.Settings
use sub_manager.Settings.{SettingsState}
use sub_manager.Public
use sub_manager.Public.{PublicReply}
use sub_manager.Public.Delivered.{opens_on}
use sub_manager.Panel
use sub_manager.Panel.{PageLinks, Request}

-- The parts of `App` that change.
pub record Site : Type 0 where
  pub db : Db
  pub disk : Disk
  pub limiter : LoginLimiter
  pub resolver : ClientIpResolver

-- What the program stands on, and its configuration.
pub record World : Type 0 where
  pub net : NetipText
  pub hash : Text → Text
  pub matches : Text → Text → Bool
  pub generate : Text → Option Text
  pub client_name : Client → Text
  pub root : CleanPath
  pub facts : FileFacts
  pub links : PageLinks
  pub session_hours : ℕ

-- What every request carries.
pub record Sender : Type 0 where
  pub remote_addr : Text
  pub header : Header
  pub cookie : Option Text

-- The POST routes behind both guards.
pub data AdminPost : Type 0 where
  post_logout : AdminPost
  post_password : Text → Text → Text → Option Text → Option Text → Time → Time → AdminPost
  post_settings : Text → Text → AdminPost
  post_panel : Request → AdminPost

pub data Visit : Type 0 where
  login_visit : Sender → Text → Option Text → Option Text → Time → Time → Time → Time → Visit
  admin_visit : Sender → Text → Time → AdminPost → Visit
  public_visit : Sender → Text → Text → Text → Time → Visit
  cleanup_turn : Time → Time → Visit

pub data Answer : Type 0 where
  admin_answer : Reply → Answer
  public_answer : PublicReply → Answer
  no_answer : Answer

abbrev pub under : String → Text → String → Text
under base id action = codes base ++ id ++ codes action

-- The paths of the routes.
abbrev pub panel_path : Request → Text
panel_path (Request.post_subscription form upload saved made) = codes "/admin/subscriptions"
panel_path (Request.post_update id form now) = under "/admin/subscriptions/" id ""
panel_path (Request.post_delete id) = under "/admin/subscriptions/" id "/delete"
panel_path (Request.post_clear_logs id) = under "/admin/subscriptions/" id "/logs/clear"
panel_path (Request.post_toggle id now) = under "/admin/subscriptions/" id "/toggle"
panel_path (Request.post_detach id now) = under "/admin/subscriptions/" id "/file/delete"
panel_path (Request.post_batch ids content now) = codes "/admin/subscriptions/batch-content"
panel_path (Request.post_subscription_file id upload saved made) =
    under "/admin/subscriptions/" id "/file"
panel_path (Request.post_replace id upload saved made) = under "/admin/files/" id "/replace"
panel_path (Request.post_association id form now) = under "/admin/files/" id "/subscriptions"
panel_path (Request.post_delete_file id refused) = under "/admin/files/" id "/delete"

abbrev pub post_path : AdminPost → Text
post_path post_logout = codes "/admin/logout"
post_path (post_password current new confirmation token csrf issued made) = codes "/admin/password"
post_path (post_settings retention proxies) = codes "/admin/settings"
post_path (post_panel r) = panel_path r

abbrev pub app_of : Site → App
app_of s = record { db = s.db; limiter = s.limiter }

abbrev pub files_of : Site → FileState
files_of s = record { db = s.db; disk = s.disk }

abbrev pub settings_of : Site → SettingsState
settings_of s = record { db = s.db; resolver = s.resolver }

abbrev pub with_app : Site → Reply × App → Reply × Site
with_app s (r, a) = (r, record s { db = a.db; limiter = a.limiter })

abbrev pub with_files : Site → Response × FileState → Reply × Site
with_files s (r, f) = (reply r, record s { db = f.db; disk = f.disk })

abbrev pub with_settings : Site → Response × SettingsState → Reply × Site
with_settings s (r, t) = (reply r, record s { db = t.db; resolver = t.resolver })

abbrev pub with_db : Site → PublicReply × Db → Answer × Site
with_db s (r, d) = (public_answer r, record s { db = d })

abbrev pub as_answer : Reply × Site → Answer × Site
as_answer (r, s) = (admin_answer r, s)

-- One turn of the cleanup; the instants are those that the two methods read.
unfoldable pub clean_up : Time → Time → Db → Db
clean_up logs sessions d =
    (Store.purge_expired_sessions sessions
      (Store.cleanup_logs (Store.settings d).log_retention_days logs d).1).1

module _ (w : World) where
  unfoldable pub client_ip : Sender → Site → Text
  client_ip from s = (ClientIp.resolve w.net s.resolver from.remote_addr from.header).client_ip

  unfoldable pub run_post : AdminPost → AuthContext → Site → Reply × Site
  run_post post_logout auth s = with_app s (Admin.logout w.hash auth (app_of s))
  run_post (post_password current new confirmation token csrf issued made) auth s = with_app s (
      Admin.handle_change_password w.hash w.matches w.generate auth current new confirmation token
        csrf w.session_hours issued made (app_of s))
  run_post (post_settings retention proxies) auth s =
      with_settings s (Settings.handle_update_settings w.net retention proxies (settings_of s))
  run_post (post_panel r) auth s = with_files s (Panel.handle w.root w.facts w.links r (files_of s))

  abbrev pub if_passed : (AuthContext → Site → Reply × Site) → Site → Gate → Reply × Site
  if_passed handler s (stop r) = (r, s)
  if_passed handler s (pass auth) = handler auth s

  -- The guards, and the handler behind them.
  unfoldable pub admin_post : Sender → Text → Time → AdminPost → Site → Reply × Site
  admin_post from csrf now post s =
      if_passed (run_post post) s
        (then_csrf w.hash csrf (require_admin w.hash from.cookie (post_path post) now (app_of s)))

  unfoldable pub visit : Visit → Site → Answer × Site
  visit (login_visit from password token csrf checked failed issued made) s = as_answer (
      with_app s (
        Admin.login w.hash w.matches (client_ip from s) password token csrf w.session_hours checked
          failed issued made (app_of s)))
  visit (admin_visit from csrf now post) s = as_answer (admin_post from csrf now post s)
  visit (public_visit from path agent method now) s = with_db s (
      Public.public_subscription w.client_name (opens_on w.root s.disk) path (client_ip from s)
        agent method now s.db)
  visit (cleanup_turn logs sessions) s = (no_answer, record s { db = clean_up logs sessions s.db })

  unfoldable pub visit_all : List Visit → Site → Site
  visit_all [] s = s
  visit_all (v ∷ vs) s = visit_all vs (visit v s).1
