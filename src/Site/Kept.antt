-- ===== src/Site/Kept.antt =====
-- What the handlers keep, every history of visits keeps.
use sub_manager.Base.{
  ℕ, Bool, true, false, ◌||◌, ◌==◌, ltb, Option, none, some, List, [], ◌∷◌, Text, codes, text_eq,
  has_prefix, if◌then◌else◌, Bool-cases, inl, inr,
}
use sub_manager.Clock.{Time, add_duration, session_duration}
use sub_manager.Limiter
use sub_manager.Helpers.{Client, detect_client}
use sub_manager.Helpers.Accepted.{GoodPath, GoodContent}
use sub_manager.ClientIp
use sub_manager.ClientIp.{ClientIpResolver}
use sub_manager.Store
use sub_manager.Store.{Db, Result, ok, err, Subscription, StoredFile, is_file}
use sub_manager.Store.Valid.{
  AccessLaws, RowLaws, record_access-Keeps, change_password-Keeps, update_settings-Keeps,
  create_session-Keeps, delete_session-Keeps, purge_expired_sessions-Keeps, cleanup_logs-Keeps,
}
use sub_manager.Storage.{Content}
use sub_manager.Storage.Inside.{IsRoot}
use sub_manager.Storage.Places.{IsDigest}
use sub_manager.Admin
use sub_manager.Admin.{App, Reply, AuthContext, Gate, pass, stop, PasswordError}
use sub_manager.Settings
use sub_manager.Settings.{SettingsState}
use sub_manager.Public
use sub_manager.Public.{PublicReply}
use sub_manager.Public.Delivered.{opens_on}
use sub_manager.Web
use sub_manager.Panel.Safe.{IsSafe, handle-IsSafe, of_laws}
use sub_manager.Site
use sub_manager.Site.{
  Site, World, Sender, AdminPost, Visit, post_logout, post_password, post_settings, post_panel,
  login_visit, admin_visit, public_visit, cleanup_turn, files_of, app_of, run_post, if_passed,
  admin_post, visit, visit_all, clean_up,
}

-- The public route records, or does nothing.
module _ {P : Db → Type 0} (laws : AccessLaws P) (client_name : Client → Text) (opens : Text → Bool)
    (ip agent method : Text) (now : Time) where
  sent_kept :
      (reply : PublicReply) (x : Result (Unit {0}) × Db)
      → P x.1
      → P (Public.sent client_name opens reply x).1
  sent_kept reply (ok u, d) h = h
  sent_kept reply (err e, d) h = h

  record_reply_kept :
      (sub : Subscription) (file : ℕ) (reply : PublicReply) (d : Db)
      → P d
      → P (Public.record_reply client_name opens sub file ip agent method now d reply).1
  record_reply_kept sub file reply d h =
      sent_kept reply
        (Store.record_access sub file ip (client_name (detect_client agent)) agent method 200 now d)
        ((record_access-Keeps laws sub file ip (client_name (detect_client agent)) agent method 200
            now).at
          d h)

  send_file_kept :
      (sub : Subscription) (d : Db) (r : Result StoredFile)
      → P d
      → P (Public.send_file client_name opens sub ip agent method now d r).1
  send_file_kept sub d (err e) h = h
  send_file_kept sub d (ok file) h = elim (Bool-cases (opens file.storage_key)) [
    | inr closed ↦ rw closed h
    | inl there ↦ elim (Bool-cases (text_eq method (codes "GET"))) [
      | inl get ↦ rw (there, get) (record_reply_kept sub file.id _ d h)
      | inr other ↦ rw (there, other) h
    ]
  ]

  serve_kept :
      (d : Db) (r : Result Subscription)
      → P d
      → P (Public.serve client_name opens ip agent method now d r).1
  unfolding Public.public_file_subscription
  serve_kept d (err e) h = h
  serve_kept d (ok sub) h = elim (Bool-cases (is_file sub.kind)) [
    | inr text ↦ rw text (record_reply_kept sub 0 _ d h)
    | inl file ↦ elim (Bool-cases (sub.file_id == 0)) [
      | inl no_file ↦ rw (file, no_file) h
      | inr has ↦ rw (file, has) (send_file_kept sub d (Store.file_by_id sub.file_id d) h)
    ]
  ]

pub public_kept :
    {P : Db → Type 0} (laws : AccessLaws P) (client_name : Client → Text) (opens : Text → Bool)
    (path ip user_agent method : Text) (now : Time) (d : Db)
    → P d
    → P (Public.public_subscription client_name opens path ip user_agent method now d).1
unfolding Public.public_subscription
public_kept laws client_name opens path ip user_agent method now d h =
    elim (Bool-cases (text_eq path (codes "/") || has_prefix path (codes "/admin"))) [
      | inl hidden ↦ rw hidden h
      | inr seen ↦ rw seen (
          serve_kept laws client_name opens ip
            (Public.truncate_bytes Public.user_agent_limit user_agent) method now d
            (Store.subscription_by_path path d) h)
    ]

module _ {P : Db → Type 0} (laws : RowLaws P GoodPath GoodContent) (hash : Text → Text) where
  opened_kept :
      (app : App) (token : Text) (expires : Time) (good bad : Reply) (x : Result (Unit {0}) × Db)
      → P x.1
      → P (Admin.opened hash app token expires good bad x).1.db
  opened_kept app token expires good bad (ok u, d) h = h
  opened_kept app token expires good bad (err e, d) h = h

  open_session_kept :
      (app : App) (version : ℕ) (expires made : Time) (good bad : Reply) (token csrf : Option Text)
      → P app.db
      → P (Admin.open_session hash app version expires made good bad token csrf).1.db
  open_session_kept app version expires made good bad none csrf h = h
  open_session_kept app version expires made good bad (some token) none h = h
  open_session_kept app version expires made good bad (some token) (some csrf) h =
      opened_kept app token expires good bad
        (Store.create_session hash token csrf version expires made app.db)
        ((create_session-Keeps laws hash token csrf version expires made).at app.db h)

  pub login_kept :
      (matches : Text → Text → Bool) (ip password : Text) (token csrf : Option Text) (hours : ℕ)
      (checked failed issued made : Time) (app : App)
      → P app.db
      → P
          (Admin.login hash matches ip password token csrf hours checked failed issued made
            app).1.db
  unfolding Admin.login Store.settings
  login_kept matches ip password token csrf hours checked failed issued made app h =
      elim (Bool-cases (Limiter.allowed app.limiter ip checked)) [
        | inr locked ↦ rw locked h
        | inl allowed ↦ elim (Bool-cases (matches app.db.settings.password_hash password)) [
          | inr wrong ↦ rw (allowed, wrong) h
          | inl right ↦
              rw (allowed, right)
                (open_session_kept (record app { limiter = Limiter.success app.limiter ip })
                  app.db.settings.session_version (add_duration issued (session_duration hours))
                  made
                  (Admin.reply (
                    Admin.redirect (
                      if app.db.settings.must_change
                      then codes "/admin/password"
                      else codes "/admin/")))
                  (Admin.reply (Admin.error_page 500)) token csrf h)
        ]
      ]

  pub change_password_kept :
      (matches : Text → Text → Bool) (generate : Text → Option Text) (auth : AuthContext)
      (current new confirmation : Text) (token csrf : Option Text) (hours : ℕ) (issued made : Time)
      (app : App)
      → P app.db
      → P
          (Admin.handle_change_password hash matches generate auth current new confirmation token
            csrf hours issued made app).1.db
  unfolding Admin.handle_change_password
  change_password_kept matches generate auth current new confirmation token csrf hours issued made
        app h =
      go (Admin.password_error hash matches auth current new confirmation) (generate new)
    where
      go :
          (e : Option PasswordError) (o : Option Text)
          → P
              (Admin.answer hash matches
                (Admin.save_password hash matches token csrf hours issued made app o)
                app
                e).1.db
      go (some e) o = h
      go none none = h
      go none (some p) =
          let (version, d) = Store.change_password p app.db in
          open_session_kept (record app { db = d }) (Admin.new_version hash matches version)
            (add_duration issued (session_duration hours)) made
            (Admin.reply (Admin.redirect (codes "/admin/?message=password-updated")))
            (record { cookie = Admin.cleared; response = Admin.redirect (codes "/admin/login") })
            (Admin.named token) (Admin.named csrf) ((change_password-Keeps laws p).at app.db h)

pub settings_kept :
    {P : Db → Type 0} (laws : RowLaws P GoodPath GoodContent) (net : ClientIp.NetipText)
    (retention proxies : Text) (st : SettingsState)
    → P st.db
    → P (Settings.handle_update_settings net retention proxies st).1.db
unfolding Settings.handle_update_settings
settings_kept {P} laws net retention proxies st h = go (Web.parse_retention retention)
  where
    answered : (d : Db) (x : ClientIpResolver × Bool) → P d → P (Settings.applied net d x).1.db
    answered d (r, true) k = k
    answered d (r, false) k = k

    checked : (n : ℕ) (o : Option Text) → P (Settings.checked_proxies net n st o).1.db
    checked n none = h
    checked n (some text) =
        answered (Store.update_settings n text st.db).1
          (ClientIp.set_configured net text st.resolver)
          ((update_settings-Keeps laws n text).at st.db h)

    go : (o : Option ℕ) → P (Settings.checked_retention net proxies st o).1.db
    go none = h
    go (some n) = elim (Bool-cases (ltb 36500 n)) [
      | inl large ↦ rw large h
      | inr small ↦ rw small (checked n (ClientIp.canonical_trusted_proxies net proxies))
    ]

module _ (w : World) where
  admin_post-IsSafe :
      (from : Sender) (csrf : Text) (now : Time) (post : AdminPost) (s : Site)
      → IsRoot w.root
      → ((c : Content) → IsDigest (w.facts.sha256 c))
      → IsSafe w.root w.facts (files_of s)
      → IsSafe w.root w.facts (files_of (admin_post w from csrf now post s).1)
  unfolding admin_post run_post Admin.logout
  admin_post-IsSafe from csrf now post s r hex safe = go (
      Admin.then_csrf w.hash csrf
        (Admin.require_admin w.hash from.cookie (Site.post_path post) now (app_of s)))
    where
      ran :
          (auth : AuthContext) (p : AdminPost)
          → IsSafe w.root w.facts (files_of (run_post w p auth s).1)
      ran auth post_logout =
          of_laws w.root w.facts (files_of s) _
            (λ P laws h. (delete_session-Keeps laws w.hash auth.token).at s.db h) safe
      ran auth (post_password current new confirmation token csrf issued made) =
          of_laws w.root w.facts (files_of s) _
            (λ P laws h.
              change_password_kept laws w.hash w.matches w.generate auth current new confirmation
                token csrf w.session_hours issued made (app_of s) h)
            safe
      ran auth (post_settings retention proxies) =
          of_laws w.root w.facts (files_of s) _
            (λ P laws h. settings_kept laws w.net retention proxies (Site.settings_of s) h) safe
      ran auth (post_panel q) = handle-IsSafe w.root w.facts w.links q (files_of s) r hex safe

      go : (g : Gate) → IsSafe w.root w.facts (files_of (if_passed w (run_post w post) s g).1)
      go (stop q) = safe
      go (pass auth) = ran auth post

  visit-IsSafe :
      (v : Visit) (s : Site)
      → IsRoot w.root
      → ((c : Content) → IsDigest (w.facts.sha256 c))
      → IsSafe w.root w.facts (files_of s)
      → IsSafe w.root w.facts (files_of (visit w v s).1)
  unfolding visit clean_up
  visit-IsSafe (login_visit from password token csrf checked failed issued made) s r hex safe =
      of_laws w.root w.facts (files_of s) _
        (λ P laws h.
          login_kept laws w.hash w.matches (Site.client_ip w from s) password token csrf
            w.session_hours checked failed issued made (app_of s) h)
        safe
  visit-IsSafe (admin_visit from csrf now post) s r hex safe =
      admin_post-IsSafe from csrf now post s r hex safe
  visit-IsSafe (public_visit from path agent method now) s r hex safe =
      of_laws w.root w.facts (files_of s) _
        (λ P laws h.
          public_kept laws.access w.client_name (opens_on w.root s.disk) path
            (Site.client_ip w from s) agent method now s.db h)
        safe
  visit-IsSafe (cleanup_turn logs sessions) s r hex safe =
      of_laws w.root w.facts (files_of s) _
        (λ P laws h.
          (purge_expired_sessions-Keeps laws sessions).at _
            ((cleanup_logs-Keeps laws (Store.settings s.db).log_retention_days logs).at s.db h))
        safe

  -- With a rooted path to the files directory, and as SHA-256 digests are 64 hex digits: after any
  -- visits, one after another, whoever sends them and whatever they hold, whether they succeed or
  -- where they fail, these still hold if they held before. The tables are well formed; every
  -- subscription has a path of the right form that the program does not need itself, and every
  -- text subscription has content in normal form, not empty and within the limit; every row of the
  -- table of files has its blob in the directory, at the place of its SHA-256, and what lies at
  -- the place of a digest has that digest.
  pub visit_all-IsSafe :
      (vs : List Visit) (s : Site)
      → IsRoot w.root
      → ((c : Content) → IsDigest (w.facts.sha256 c))
      → IsSafe w.root w.facts (files_of s)
      → IsSafe w.root w.facts (files_of (visit_all w vs s))
  unfolding visit_all
  visit_all-IsSafe [] s r hex safe = safe
  visit_all-IsSafe (v ∷ vs) s r hex safe =
      visit_all-IsSafe vs (visit w v s).1 r hex (visit-IsSafe v s r hex safe)
