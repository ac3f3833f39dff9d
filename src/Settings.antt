-- ===== src/Settings.antt =====
-- The handler `updateSettings` of internal/app/handlers.go: it changes the settings in the database and
-- the prefixes of the resolver.
pub mod Applied
mod Tests
use sub_manager.Base.{
  ℕ, ◌+◌, ◌-◌, ◌*◌, ◌==◌, ltb, leb, Bool, true, false, not, ◌&&◌, ◌||◌, Option, none, some, List,
  [], ◌∷◌, Text, codes, is_empty, if◌then◌else◌,
}
use sub_manager.ClientIp
use sub_manager.ClientIp.{NetipText, ClientIpResolver}
use sub_manager.Web.{parse_retention}
use sub_manager.Store
use sub_manager.Store.{Db}
use sub_manager.Admin.{Response, redirect, page, error_page}

pub record SettingsState : Type 0 where
  pub db : Db
  pub resolver : ClientIpResolver

abbrev pub max_retention : ℕ
max_retention = 36500

module _ (net : NetipText) where
  abbrev pub applied : Db → ClientIpResolver × Bool → Response × SettingsState
  applied d (r, true) =
      (redirect (codes "/admin/settings?message=settings-updated"), record { db = d; resolver = r })
  applied d (r, false) = (error_page 500, record { db = d; resolver = r })

  -- `UpdateSettings`, then `setConfigured` with the text that was stored.
  abbrev pub apply : ℕ → Text → SettingsState → Response × SettingsState
  apply retention proxies st =
      applied (Store.update_settings retention proxies st.db).1
        (ClientIp.set_configured net proxies st.resolver)

  abbrev pub checked_proxies : ℕ → SettingsState → Option Text → Response × SettingsState
  checked_proxies retention st none = (page 400 (codes "settings"), st)
  checked_proxies retention st (some proxies) = apply retention proxies st

  abbrev pub checked_retention : Text → SettingsState → Option ℕ → Response × SettingsState
  checked_retention proxies st none = (page 400 (codes "settings"), st)
  checked_retention proxies st (some retention) =
      if ltb max_retention retention
      then (page 400 (codes "settings"), st)
      else checked_proxies retention st (ClientIp.canonical_trusted_proxies net proxies)

  unfoldable pub handle_update_settings : Text → Text → SettingsState → Response × SettingsState
  handle_update_settings retention proxies st =
      checked_retention proxies st (parse_retention retention)
