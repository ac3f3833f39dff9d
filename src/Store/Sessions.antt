-- ===== src/Store/Sessions.antt =====
-- The settings and the login sessions. `crypto/sha256` is the argument `hash`.
use sub_manager.Base.{
  ℕ, ◌+◌, ◌==◌, Bool, false, not, ◌&&◌, Option, none, some, [], ◌∷◌, ◌++◌, Text, text_eq, exists,
  find, delete_where, if◌then◌else◌,
}
use sub_manager.Clock.{Time, db_time, db_time_lt}
use sub_manager.Store.Tables.{
  SettingsRow, SessionRow, Db, no_rows, unique_failed, Result, ok, err, Exec, ◌>>◌, transaction,
}

unfoldable pub settings : Db → SettingsRow
settings d = d.settings

abbrev pub set_password : Text → SettingsRow → SettingsRow
set_password hash s = record s {
  password_hash = hash;
  must_change = false;
  session_version = s.session_version + 1;
}

abbrev store_password : Text → Exec (Unit {0})
store_password hash d = (ok tt, record d { settings = set_password hash d.settings })

abbrev delete_all_sessions : Exec (Unit {0})
delete_all_sessions d = (ok tt, record d { sessions = [] })

abbrev read_session_version : Exec ℕ
read_session_version d = (ok d.settings.session_version, d)

unfoldable pub change_password : Text → Exec ℕ
change_password hash =
    transaction (do store_password hash; delete_all_sessions; read_session_version)

unfoldable pub update_settings : ℕ → Text → Exec (Unit {0})
update_settings retention proxies d = (
  ok tt,
  record d {
    settings = record (d.settings) { log_retention_days = retention; trusted_proxies = proxies };
  },
)

pub record Session : Type 0 where
  pub csrf_token : Text
  pub version : ℕ
  pub expires_at : Time

-- `expires_at > now`, on texts.
abbrev pub not_expired : Time → SessionRow → Bool
not_expired now s = db_time_lt (db_time now) (db_time s.expires_at)

abbrev pub scan_session : Option SessionRow → Result Session
scan_session none = err no_rows
scan_session (some s) =
    ok (record { csrf_token = s.csrf_token; version = s.version; expires_at = s.expires_at })

module _ (hash : Text → Text) where
  -- The primary key is the hash of the token.
  unfoldable pub create_session : Text → Text → ℕ → Time → Time → Exec (Unit {0})
  create_session token csrf version expires now d =
      if exists (λ s. text_eq s.token_hash (hash token)) d.sessions
      then (err unique_failed, d)
      else (
        ok tt,
        record d {
          sessions =
              d.sessions
              ++ record {
                token_hash = hash token;
                csrf_token = csrf;
                version = version;
                expires_at = expires;
                created_at = now;
              }
                ∷ [];
        },
      )

  abbrev pub is_live : Text → Time → Db → SessionRow → Bool
  is_live token now d s =
      text_eq s.token_hash (hash token)
      && s.version == d.settings.session_version
      && not_expired now s

  unfoldable pub session : Text → Time → Db → Result Session
  session token now d = scan_session (find (is_live token now d) d.sessions)

  unfoldable pub delete_session : Text → Exec (Unit {0})
  delete_session token d = (
    ok tt,
    record d { sessions = delete_where (λ s. text_eq s.token_hash (hash token)) d.sessions },
  )

-- `expires_at <= now`, on texts.
unfoldable pub purge_expired_sessions : Time → Exec (Unit {0})
purge_expired_sessions now d =
    (ok tt, record d { sessions = delete_where (λ s. not (not_expired now s)) d.sessions })
