-- ===== src/Site/Strangers.antt =====
-- What a visitor can do who knows neither the password nor a session with its CSRF token.
use sub_manager.Base.{
  ◌≡◌, ◌∙◌, sym, ap, refl, subst, Bool, true, false, ◌&&◌, Option, none, some, List, [], ◌∷◌, Text,
  text_eq, find, is_empty, arith, Bool-cases, inl, inr,
}
use sub_manager.Base.Rows.{test_of_find}
use sub_manager.Clock.{Time}
use sub_manager.Store
use sub_manager.Store.{
  Db, SettingsRow, SessionRow, SubscriptionRow, FileRow, Session, Result, ok, err, Exec,
  scan_session, is_live,
}
use sub_manager.Admin
use sub_manager.Admin.{App, Reply, AuthContext, Gate, pass, stop}
use sub_manager.Admin.Access.{login_refused}
use sub_manager.Public.Delivered.{opens_on}
use sub_manager.Public.Served.{exists-find}
use sub_manager.Site
use sub_manager.Site.{
  Site, World, Sender, AdminPost, Visit, login_visit, admin_visit, public_visit, cleanup_turn,
  app_of, if_passed, run_post, admin_post, post_path, visit, visit_all, clean_up,
}
use sub_manager.Site.Kept.{public_kept}
use sub_manager.Site.Untouched.{
  SameTables-laws, clean_up-SameTables, SameTables, IsUntouched, has_pair,
}

module _ (w : World) where
  -- A visitor without the password; for the POST routes of the administration, without a cookie for
  -- which there is a session with the CSRF token that is sent. Who visits the public route does not
  -- matter, and the cleanup is nobody's.
  abbrev pub IsStranger : Site → Visit → Type 0
  IsStranger a (login_visit from password token csrf checked failed issued made) =
      w.matches a.db.settings.password_hash password ≡ false
  IsStranger a (admin_visit from csrf now post) =
      (token : Text) → from.cookie ≡ some token → has_pair (w.hash token) csrf a.db ≡ false
  IsStranger a (public_visit from path agent method now) = Unit
  IsStranger a (cleanup_turn logs sessions) = Unit

  abbrev pub AllStrangers : Site → List Visit → Type 0
  AllStrangers a [] = Unit
  AllStrangers a (v ∷ vs) = IsStranger a v × AllStrangers a vs

  abbrev is_stop : Gate → Bool
  is_stop (stop r) = true
  is_stop (pass auth) = false

  -- The session that a token finds has another CSRF token.
  session_differs :
      (token csrf : Text) (now : Time) (d : Db) (s : Session)
      → has_pair (w.hash token) csrf d ≡ false
      → Store.session w.hash token now d ≡ ok s
      → text_eq csrf s.csrf_token ≡ false
  unfolding Store.session
  session_differs token csrf now d s none_such e =
      go (find (is_live w.hash token now d) d.sessions) refl e
    where
      go :
          (o : Option SessionRow)
          → find (is_live w.hash token now d) d.sessions ≡ o
          → scan_session o ≡ ok s
          → text_eq csrf s.csrf_token ≡ false
      go none f k = absurd (ground arith)
      go (some row) f k =
          let live = test_of_find (is_live w.hash token now d) d.sessions row f in
          let same : row.csrf_token ≡ s.csrf_token = scanned row s k in
          elim (Bool-cases (text_eq csrf row.csrf_token)) [
            | inl known ↦
                let pair =
                  exists-find (is_live w.hash token now d)
                    (λ r. text_eq r.token_hash (w.hash token) && text_eq csrf r.csrf_token)
                    d.sessions row f (ground arith) in
                absurd (ground arith)
            | inr unknown ↦ subst (λ t. text_eq csrf t ≡ false) same unknown
          ]
        where
          scanned :
              (r : SessionRow) (t : Session)
              → scan_session (some r) ≡ ok t
              → r.csrf_token ≡ t.csrf_token
          scanned r t q = cc

  stopped :
      (from : Sender) (csrf path : Text) (now : Time) (s : Site)
      → ((token : Text) → from.cookie ≡ some token → has_pair (w.hash token) csrf s.db ≡ false)
      → is_stop
          (Admin.then_csrf w.hash csrf (Admin.require_admin w.hash from.cookie path now (app_of s)))
        ≡ true
  unfolding Admin.require_admin Admin.require_csrf Store.settings
  stopped from csrf path now s unknown = cookie from.cookie refl
    where
      checked :
          (token : Text) (r : Result Session)
          → ((t : Session) → r ≡ ok t → text_eq csrf t.csrf_token ≡ false)
          → is_stop
              (Admin.then_csrf w.hash csrf (Admin.check_session w.hash token path (app_of s) r))
            ≡ true
      checked token (err e) differs = refl
      checked token (ok t) differs = ground (arith, differs t refl)

      cookie :
          (o : Option Text)
          → from.cookie ≡ o
          → is_stop (Admin.then_csrf w.hash csrf (Admin.require_admin w.hash o path now (app_of s)))
            ≡ true
      cookie none e = refl
      cookie (some token) e = elim (Bool-cases (is_empty token)) [
        | inl empty ↦ rw empty refl
        | inr full ↦ rw full (
            checked token (Store.session w.hash token now s.db)
              (λ t found. session_differs token csrf now s.db t (unknown token e) found))
      ]

  stays :
      (handler : AuthContext → Site → Reply × Site) (s : Site) (g : Gate)
      → is_stop g ≡ true
      → (if_passed w handler s g).1 ≡ s
  stays handler s (stop r) h = refl
  stays handler s (pass auth) h = absurd (ground arith)

  visit-IsUntouched :
      (a s : Site) (v : Visit) → IsStranger a v → IsUntouched a s → IsUntouched a (visit w v s).1
  unfolding visit admin_post
  visit-IsUntouched a s (login_visit from password token csrf checked failed issued made) k u =
      let wrong : w.matches s.db.settings.password_hash password ≡ false =
        ap (λ (t : SettingsRow). w.matches t.password_hash password) u.tables.settings ∙ k in
      let refused =
        (login_refused w.hash w.matches (Site.client_ip w from s) password token csrf
          w.session_hours checked failed issued made (app_of s) (ground arith)).1 in
      record {
        tables = subst (SameTables a.db) (sym refused) u.tables;
        disk = u.disk;
        resolver = u.resolver;
      }
  visit-IsUntouched a s (admin_visit from csrf now post) k u =
      subst (IsUntouched a)
        (sym (
          stays (run_post w post) s
            (Admin.then_csrf w.hash csrf
              (Admin.require_admin w.hash from.cookie (post_path post) now (app_of s)))
            (stopped from csrf (post_path post) now s
              (λ token e. u.tables.sessions (w.hash token) csrf (k token e)))))
        u
  visit-IsUntouched a s (public_visit from path agent method now) k u = record {
    tables =
        public_kept (SameTables-laws a.db) w.client_name (opens_on w.root s.disk) path
          (Site.client_ip w from s) agent method now s.db u.tables;
    disk = u.disk;
    resolver = u.resolver;
  }
  visit-IsUntouched a s (cleanup_turn logs sessions) k u = record {
    tables = clean_up-SameTables a.db logs sessions s.db u.tables;
    disk = u.disk;
    resolver = u.resolver;
  }

  strangers-from :
      (a s : Site) (vs : List Visit)
      → AllStrangers a vs
      → IsUntouched a s
      → IsUntouched a (visit_all w vs s)
  unfolding visit_all
  strangers-from a s [] k u = u
  strangers-from a s (v ∷ vs) k u =
      strangers-from a (visit w v s).1 vs k.1 (visit-IsUntouched a s v k.0 u)

  -- However many visits are made, in whatever order, by visitors who send wrong passwords, and to the
  -- administration no cookie or one without a session that has the CSRF token that is sent, and whatever
  -- is fetched and cleaned up between: the settings, the files directory and the trusted proxies in force
  -- are what they were; the subscriptions and the files, too, but for the counts, times and addresses of
  -- fetches; and no token and CSRF token have a session that had none before.
  pub strangers-IsUntouched :
      (vs : List Visit) (s : Site) → AllStrangers s vs → IsUntouched s (visit_all w vs s)
  strangers-IsUntouched vs s k = strangers-from s s vs k (record {
    tables = record {
      settings = refl;
      subscriptions = refl;
      files = refl;
      sessions = λ h csrf n. n;
    };
    disk = refl;
    resolver = refl;
  })
