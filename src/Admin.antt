-- ===== src/Admin.antt =====
-- The guards of internal/app/auth.go, and the handlers of internal/app/handlers.go that log in, log
-- out and change the password. A handler is a function of the form's values, of the instants that it
-- reads, of the random tokens that it gets (`none` where `randomToken` fails) and of the state, and
-- returns its reply and the new state. bcrypt and the hash of tokens are parameters.
pub mod Access
mod Tests
use sub_manager.Base.{
  ℕ, ◌+◌, ◌==◌, ltb, Bool, true, false, not, ◌&&◌, ◌||◌, Option, none, some, List, [], ◌∷◌, Text,
  codes, text_eq, is_empty, length, byte_len, has_prefix, if◌then◌else◌,
}
use sub_manager.Clock.{Time, add_duration, session_duration}
use sub_manager.Limiter
use sub_manager.Limiter.{LoginLimiter}
use sub_manager.Store
use sub_manager.Store.{Db, SettingsRow, Session, Result, ok, err}

-- What the handlers change of `App`.
pub record App : Type 0 where
  pub db : Db
  pub limiter : LoginLimiter

pub data Cookie : Type 0 where
  kept : Cookie
  set_session : Text → Time → Cookie
  cleared : Cookie

-- A redirect, a page of the site with its status, the error page, and plain text of `http.Error`.
pub data Response : Type 0 where
  redirect : Text → Response
  page : ℕ → Text → Response
  error_page plain_error : ℕ → Response

pub record Reply : Type 0 where
  pub cookie : Cookie
  pub response : Response

abbrev pub reply : Response → Reply
reply r = record { cookie = kept; response = r }

pub record AuthContext : Type 0 where
  pub token : Text
  pub session : Session
  pub config : SettingsRow

-- What a guard does: the handler runs, or the reply is sent.
pub data Gate : Type 0 where
  pass : AuthContext → Gate
  stop : Reply → Gate

unfoldable pub redirect_login : Text → Response
redirect_login path =
    if has_prefix path (codes "/admin/") then redirect (codes "/admin/login") else plain_error 401

-- The paths that stay open while the password must be changed.
abbrev pub is_open : Text → Bool
is_open path = text_eq path (codes "/admin/password") || text_eq path (codes "/admin/logout")

unfoldable pub require_csrf : AuthContext → Text → Gate
require_csrf auth provided =
    if is_empty provided || not (text_eq provided auth.session.csrf_token)
    then stop (reply (error_page 403))
    else pass auth

-- `token == ""` in `changePassword`: what `randomToken` gives with an error, or an empty text.
abbrev pub named : Option Text → Option Text
named none = none
named (some t) = if is_empty t then none else some t

pub data PasswordError : Type 0 where
  wrong_password too_short too_long not_confirmed same_password : PasswordError

module _ (hash : Text → Text) where
  abbrev pub check_session : Text → Text → App → Result Session → Gate
  check_session token path app (err e) =
      stop (record { cookie = cleared; response = redirect_login path })
  check_session token path app (ok s) =
      let config = Store.settings app.db in
      if config.must_change && not (is_open path)
      then stop (reply (redirect (codes "/admin/password")))
      else pass (record { token = token; session = s; config = config })

  unfoldable pub require_admin : Option Text → Text → Time → App → Gate
  require_admin none path now app = stop (reply (redirect_login path))
  require_admin (some token) path now app =
      if is_empty token
      then stop (reply (redirect_login path))
      else check_session token path app (Store.session hash token now app.db)

  abbrev pub then_csrf : Text → Gate → Gate
  then_csrf provided (stop r) = stop r
  then_csrf provided (pass auth) = require_csrf auth provided

  unfoldable pub logout : AuthContext → App → Reply × App
  logout auth app = (
    record { cookie = cleared; response = redirect (codes "/admin/login") },
    record app { db = (Store.delete_session hash auth.token app.db).1 },
  )

  -- `CreateSession`, and the reply of each outcome.
  abbrev pub opened : App → Text → Time → Reply → Reply → Result (Unit {0}) × Db → Reply × App
  opened app token expires good bad (ok u, d) = (
    record { cookie = set_session token expires; response = good.response },
    record app { db = d },
  )
  opened app token expires good bad (err e, d) = (bad, record app { db = d })

  abbrev pub open_session :
      App → ℕ → Time → Time → Reply → Reply → Option Text → Option Text → Reply × App
  open_session app version expires made good bad none csrf = (bad, app)
  open_session app version expires made good bad (some token) none = (bad, app)
  open_session app version expires made good bad (some token) (some csrf) =
      opened app token expires good bad
        (Store.create_session hash token csrf version expires made app.db)

  module _ (matches : Text → Text → Bool) where
    -- The instants are those of `allowed`, of `fail`, of `now()` and of `CreateSession`.
    unfoldable pub login :
        Text → Text → Option Text → Option Text → ℕ → Time → Time → Time → Time → App → Reply × App
    login ip password token csrf hours checked failed issued made app =
        let config = Store.settings app.db in
        if not (Limiter.allowed app.limiter ip checked)
        then (reply (page 429 (codes "login")), app)
        else if not (matches config.password_hash password)
        then (
          reply (page 401 (codes "login")),
          record app { limiter = Limiter.fail app.limiter ip failed },
        )
        else open_session (record app { limiter = Limiter.success app.limiter ip })
            config.session_version (add_duration issued (session_duration hours)) made
            (reply
              (redirect (if config.must_change then codes "/admin/password" else codes "/admin/")))
            (reply (error_page 500)) token csrf

    -- The checks of `changePassword`, in their order.
    unfoldable pub password_error : AuthContext → Text → Text → Text → Option PasswordError
    password_error auth current new confirmation =
        if not auth.config.must_change && not (matches auth.config.password_hash current)
        then some wrong_password
        else if ltb (length new) 4
        then some too_short
        else if ltb 72 (byte_len new)
        then some too_long
        else if not (text_eq new confirmation)
        then some not_confirmed
        else if matches auth.config.password_hash new
        then some same_password
        else none

    abbrev pub new_version : Result ℕ → ℕ
    new_version (ok n) = n
    new_version (err e) = 0

    abbrev pub save_password :
        Option Text → Option Text → ℕ → Time → Time → App → Option Text → Reply × App
    save_password token csrf hours issued made app none = (reply (error_page 500), app)
    save_password token csrf hours issued made app (some h) =
        let (version, d) = Store.change_password h app.db in
        open_session (record app { db = d }) (new_version version)
          (add_duration issued (session_duration hours)) made
          (reply (redirect (codes "/admin/?message=password-updated")))
          (record { cookie = cleared; response = redirect (codes "/admin/login") }) (named token)
          (named csrf)

    abbrev pub answer : Reply × App → App → Option PasswordError → Reply × App
    answer saved app none = saved
    answer saved app (some e) = (reply (page 400 (codes "password")), app)

    unfoldable pub handle_change_password :
        (Text → Option Text)
        → AuthContext
        → Text
        → Text
        → Text
        → Option Text
        → Option Text
        → ℕ
        → Time
        → Time
        → App
        → Reply × App
    handle_change_password generate auth current new confirmation token csrf hours issued made app =
        answer (save_password token csrf hours issued made app (generate new)) app
          (password_error auth current new confirmation)
