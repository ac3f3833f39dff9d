-- ===== src/Admin/Access.antt =====
-- Which requests the guards of internal/app/auth.go let through, before and after the handlers.
use sub_manager.Base.{
  ℕ, ◌+◌, ◌≡◌, ◌≢◌, ◌∙◌, ap, refl, Bool, true, false, not, ◌&&◌, Option, none, some, Text, codes,
  text_eq, text_eq_iff, is_empty, exists, arith, if◌then◌else◌, ◌⊎◌, inl, inr, Bool-cases, ◌<◌,
  ◌==◌,
}
use sub_manager.Clock.{Time, nanoseconds, add_duration, session_duration, db_time, db_time_lt}
use sub_manager.Limiter
use sub_manager.Store
use sub_manager.Store.{Db, Session, Result, ok, err, no_rows}
use sub_manager.Store.Login.{
  session_stored, session_sound, change_password_revokes, session-create, session-delete,
  session_other,
}
use sub_manager.Admin.{
  App, kept, cleared, set_session, redirect, Reply, reply, AuthContext, pass, stop, is_open,
  require_admin, named, logout, login, password_error, handle_change_password, open_session, opened,
  new_version,
}

named_some : (token : Option Text) (t : Text) → named token ≡ some t → token ≡ some t
named_some none t e = absurd (ground arith)
named_some (some u) t e = ground arith

-- The two pages that are open while the password must be changed.
abbrev pub IsOpen : Text → Type 0
IsOpen path = (path ≡ codes "/admin/password") ⊎ (path ≡ codes "/admin/logout")

is_open-IsOpen : (path : Text) → is_open path ≡ true → IsOpen path
is_open-IsOpen path h =
    ground
      (arith, text_eq_iff path (codes "/admin/password"), text_eq_iff path (codes "/admin/logout"))

module _ (hash : Text → Text) where
  entered :
      (cookie : Option Text) (path : Text) (now : Time) (app : App) (a : AuthContext)
      → require_admin hash cookie path now app ≡ pass a
      → (cookie ≡ some a.token)
        × (Store.session hash a.token now app.db ≡ ok a.session)
        × (a.config ≡ app.db.settings)
        × ((app.db.settings.must_change && not (is_open path)) ≡ false)
  unfolding require_admin Store.settings
  entered none path now app a e = absurd (ground arith)
  entered (some token) path now app a e = checked (Store.session hash token now app.db) refl
    where
      checked :
          (r : Result Session)
          → Store.session hash token now app.db ≡ r
          → (some token ≡ some a.token)
            × (Store.session hash a.token now app.db ≡ ok a.session)
            × (a.config ≡ app.db.settings)
            × ((app.db.settings.must_change && not (is_open path)) ≡ false)
      checked r s = ground arith

  -- A request gets through only with a cookie: a session of its hash is stored, of the version of the
  -- present settings, and expired for less than a second at most. The handler sees that session, with
  -- its CSRF token, and the present settings. If the password must be changed, only `/admin/password`
  -- and `/admin/logout` get through.
  pub require_admin_sound :
      (cookie : Option Text) (path : Text) (now : Time) (app : App) (a : AuthContext)
      → require_admin hash cookie path now app ≡ pass a
      → (cookie ≡ some a.token)
        × (exists
              (λ row.
                text_eq row.token_hash (hash a.token)
                && text_eq row.csrf_token a.session.csrf_token
                && row.version == a.session.version
                && row.expires_at == a.session.expires_at)
              app.db.sessions
            ≡ true)
        × (a.session.version ≡ app.db.settings.session_version)
        × (now < a.session.expires_at + nanoseconds)
        × (a.config ≡ app.db.settings)
        × ((app.db.settings.must_change ≡ false) ⊎ IsOpen path)
  require_admin_sound cookie path now app a e =
      let (sent, found, config, on_open) = entered cookie path now app a e in
      let (version, live) = session_sound hash a.token now app.db a.session found in
      (
        sent,
        session_stored hash a.token now app.db a.session found,
        version,
        live,
        config,
        elim (Bool-cases app.db.settings.must_change) [
          | inl must ↦ inr (is_open-IsOpen path (ground arith))
          | inr free ↦ inl free
        ],
      )

  refused :
      (token path : Text) (now : Time) (app : App)
      → Store.session hash token now app.db ≡ err no_rows
      → (a : AuthContext) → require_admin hash (some token) path now app ≢ pass a
  unfolding require_admin
  refused token path now app h a = ground arith

  -- After a logout its token gets no request through.
  pub logout_ends :
      (auth a : AuthContext) (path : Text) (now : Time) (app : App)
      → require_admin hash (some auth.token) path now (logout hash auth app).1 ≢ pass a
  unfolding logout
  logout_ends auth a path now app =
      refused auth.token path now (logout hash auth app).1
        (session-delete hash auth.token auth.token now app.db
          ∙ rw ((text_eq_iff (hash auth.token) (hash auth.token)).1 refl))
        a

  opened-db :
      (app : App) (token : Text) (expires : Time) (good bad : Reply) (r : Result (Unit {0}) × Db)
      → (opened hash app token expires good bad r).1.db ≡ r.1
  opened-db app token expires good bad (ok u, d) = refl
  opened-db app token expires good bad (err e, d) = refl

  -- Opening a session for one token gives another one nothing.
  open_session_other :
      (app : App) (version : ℕ) (expires made : Time) (good bad : Reply) (token csrf : Option Text)
      (other : Text) (now : Time)
      → Store.session hash other now app.db ≡ err no_rows
      → ((t : Text) → token ≡ some t → hash other ≢ hash t)
      → Store.session hash other now
          (open_session hash app version expires made good bad token csrf).1.db
        ≡ err no_rows
  open_session_other app version expires made good bad none csrf other now h apart = h
  open_session_other app version expires made good bad (some token) none other now h apart = h
  open_session_other app version expires made good bad (some token) (some csrf) other now h apart =
      ap (Store.session hash other now) (
        opened-db app token expires good bad
          (Store.create_session hash token csrf version expires made app.db))
      ∙ session_other hash token csrf version expires made other now app.db (apart token refl)
      ∙ h

  module _ (matches : Text → Text → Bool) where
    -- A login that the limiter refuses or whose password is wrong gives no cookie and leaves the
    -- database alone; the limiter counts it only if the limiter had let it through.
    pub login_refused :
        (ip password : Text) (token csrf : Option Text) (hours : ℕ)
        (checked failed issued made : Time) (app : App)
        → (Limiter.allowed app.limiter ip checked && matches app.db.settings.password_hash password)
          ≡ false
        → let (r, app') =
            login hash matches ip password token csrf hours checked failed issued made app in
          (r.cookie ≡ kept)
          × (app'.db ≡ app.db)
          × (app'.limiter ≡ (
              if Limiter.allowed app.limiter ip checked
              then Limiter.fail app.limiter ip failed
              else app.limiter))
    unfolding login Store.settings
    login_refused ip password token csrf hours checked failed issued made app h = ground arith

    -- A login that is let through, with the right password and random tokens of which the first is not
    -- empty and its hash not yet stored, gives a cookie that the guard accepts until it expires, in the
    -- order of the stored times: with the new CSRF token, or, if the password must be changed, on the
    -- two open paths.
    pub login_opens :
        (ip password token csrf path : Text) (hours : ℕ) (checked failed issued made now : Time)
        (app : App)
        → Limiter.allowed app.limiter ip checked ≡ true
        → matches app.db.settings.password_hash password ≡ true
        → is_empty token ≡ false
        → exists (λ s. text_eq s.token_hash (hash token)) app.db.sessions ≡ false
        → db_time_lt (db_time now) (db_time (add_duration issued (session_duration hours))) ≡ true
        → let (r, app') =
            login hash matches ip password
              (some token)
              (some csrf)
              hours
              checked
              failed
              issued
              made
              app in
          (r.cookie ≡ set_session token (add_duration issued (session_duration hours)))
          × (require_admin hash (some token) path now app' ≡ (
              if app.db.settings.must_change && not (is_open path)
              then stop (reply (redirect (codes "/admin/password")))
              else pass (record {
                token = token;
                session = record {
                  csrf_token = csrf;
                  version = app.db.settings.session_version;
                  expires_at = add_duration issued (session_duration hours);
                };
                config = app.db.settings;
              })))
    unfolding login require_admin Store.settings Store.create_session
    login_opens ip password token csrf path hours checked failed issued made now app free right
          named fresh live =
        ground (
          arith,
          session-create hash token csrf (add_duration issued (session_duration hours)) made now
              app.db fresh,
        )

    -- After a new password is accepted, no token but those with the hash of the new one gets a request
    -- through, whatever session it had, also where the new session could not be made.
    pub password_change_ends :
        (generate : Text → Option Text) (auth a : AuthContext) (current new confirmation h : Text)
        (token csrf : Option Text) (hours : ℕ) (issued made : Time) (app : App) (other path : Text)
        (now : Time)
        → password_error hash matches auth current new confirmation ≡ none
        → generate new ≡ some h
        → ((t : Text) → token ≡ some t → hash other ≢ hash t)
        → let app' =
            (handle_change_password hash matches generate auth current new confirmation token csrf
              hours issued made app).1 in
          require_admin hash (some other) path now app' ≢ pass a
    unfolding handle_change_password
    password_change_ends generate auth a current new confirmation h token csrf hours issued made app
          other path now accepted made_hash apart =
        refused other path now
          (handle_change_password hash matches generate auth current new confirmation token csrf
            hours issued made app).1
          (rw (accepted, made_hash)
            (let (version, d) = Store.change_password h app.db in
              open_session_other (record app { db = d }) (new_version hash matches version)
                (add_duration issued (session_duration hours)) made
                (reply (redirect (codes "/admin/?message=password-updated")))
                (record { cookie = cleared; response = redirect (codes "/admin/login") })
                (named token) (named csrf) other now
                (change_password_revokes hash h other now app.db)
                (λ t e. apart t (named_some token t e))))
          a
