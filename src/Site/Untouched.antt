-- ===== src/Site/Untouched.antt =====
-- What fetches and the cleanup leave as it is.
use sub_manager.Base.{
  ℕ, ◌≡◌, ◌∙◌, ap, refl, Bool, false, not, ◌&&◌, ◌==◌, none, List, [], ◌∷◌, map, Text, text_eq,
  exists, update_where, delete_where, arith, Bool-cases, inl, inr,
}
use sub_manager.Clock.{Time}
use sub_manager.Store
use sub_manager.Store.{
  Db, SettingsRow, SessionRow, SubscriptionRow, FileRow, Session, Result, ok, err, Exec,
  scan_session, is_live,
}
use sub_manager.Store.Valid.{Keeps, AccessLaws}
use sub_manager.Site.{Site, clean_up}

-- A row without what a fetch counts.
abbrev pub outline : SubscriptionRow → SubscriptionRow
outline s = record s {
  fetch_count = 0;
  current_fetch_count = 0;
  last_fetched_at = none;
  last_fetched_ip = [];
}

abbrev pub file_outline : FileRow → FileRow
file_outline f = record f {
  download_count = 0;
  last_downloaded_at = none;
  last_downloaded_ip = [];
  updated_at = f.created_at;
}

-- Whether there is a session for a hash of a token, with a CSRF token.
abbrev pub has_pair : Text → Text → Db → Bool
has_pair h csrf d = exists (λ s. text_eq s.token_hash h && text_eq csrf s.csrf_token) d.sessions

-- What the tables hold of value, and the sessions, compared with an earlier state.
pub record SameTables (a d : Db) : Type 0 where
  pub settings : d.settings ≡ a.settings
  pub subscriptions : map outline d.subscriptions ≡ map outline a.subscriptions
  pub files : map file_outline d.files ≡ map file_outline a.files
  pub sessions : (h csrf : Text) → has_pair h csrf a ≡ false → has_pair h csrf d ≡ false

pub record IsUntouched (a s : Site) : Type 0 where
  pub tables : SameTables a.db s.db
  pub disk : s.disk ≡ a.disk
  pub resolver : s.resolver ≡ a.resolver

map-update {ℓ κ} :
    {A : Type ℓ} {B : Type κ} (g : A → B) (p : A → Bool) (f : A → A) (xs : List A)
    → ((x : A) → g (f x) ≡ g x)
    → map g (update_where p f xs) ≡ map g xs
map-update g p f [] same = refl
map-update g p f (x ∷ xs) same = elim (Bool-cases (p x)) [
  | inl hit ↦ rw (hit, same x, map-update g p f xs same) refl
  | inr miss ↦ rw (miss, map-update g p f xs same) refl
]

exists-delete_false {ℓ} :
    {A : Type ℓ} (test p : A → Bool) (xs : List A)
    → exists test xs ≡ false
    → exists test (delete_where p xs) ≡ false
exists-delete_false test p [] h = refl
exists-delete_false test p (x ∷ xs) h = ground (arith, exists-delete_false test p xs)

module _ (a : Db) where
  subscriptions_counted :
      (p : SubscriptionRow → Bool) (f : SubscriptionRow → SubscriptionRow)
      → ((s : SubscriptionRow) → outline (f s) ≡ outline s)
      → Keeps (SameTables a) (Store.update_subscriptions p f)
  unfolding Store.update_subscriptions
  subscriptions_counted p f same = record {
    at = λ d h. record {
      settings = h.settings;
      subscriptions = map-update outline p f d.subscriptions same ∙ h.subscriptions;
      files = h.files;
      sessions = h.sessions;
    };
  }

  files_counted :
      (id : ℕ) (f : FileRow → FileRow)
      → ((r : FileRow) → file_outline (f r) ≡ file_outline r)
      → Keeps (SameTables a) (Store.update_file id f)
  unfolding Store.update_file
  files_counted id f same = record {
    at = λ d h. record {
      settings = h.settings;
      subscriptions = h.subscriptions;
      files = map-update file_outline (λ r. r.id == id) f d.files same ∙ h.files;
      sessions = h.sessions;
    };
  }

  -- The part of the database that `SameTables` reads.
  abbrev tables_of : Db → SettingsRow × List SubscriptionRow × List FileRow × List SessionRow
  tables_of d = (d.settings, d.subscriptions, d.files, d.sessions)

  same_tables : (d d' : Db) → tables_of d' ≡ tables_of d → SameTables a d → SameTables a d'
  same_tables d d' e h =
      let e0 : d'.settings ≡ d.settings = ap (λ t. t.0) e in
      let e1 : d'.subscriptions ≡ d.subscriptions = ap (λ t. t.1) e in
      let e2 : d'.files ≡ d.files = ap (λ t. t.2) e in
      let e3 : d'.sessions ≡ d.sessions = ap (λ t. t.3) e in
      record {
        settings = e0 ∙ h.settings;
        subscriptions = ap (map outline) e1 ∙ h.subscriptions;
        files = ap (map file_outline) e2 ∙ h.files;
        sessions = λ k csrf n. ap (exists _) e3 ∙ h.sessions k csrf n;
      }

  untouched :
      {A : Type 0} (m : Exec A)
      → ((d : Db) → tables_of (m d).1 ≡ tables_of d)
      → Keeps (SameTables a) m
  untouched m e = record { at = λ d h. same_tables d (m d).1 (e d) h }

  pub SameTables-laws : AccessLaws (SameTables a)
  unfolding Store.upsert_stat Store.insert_log
  SameTables-laws = record {
    fetch_counted = λ id file revision now ip.
        subscriptions_counted _ (Store.count_fetch file revision now ip) (λ s. refl);
    download_counted = λ file now ip. files_counted file (Store.count_download now ip) (λ r. refl);
    stat_counted = λ file sub now ip. untouched _ (λ d. ground arith);
    log_inserted = λ make. untouched _ (λ d. ground arith);
  }

  pub clean_up-SameTables :
      (logs sessions : Time) (d : Db) → SameTables a d → SameTables a (clean_up logs sessions d)
  unfolding clean_up Store.cleanup_logs Store.purge_expired_sessions Store.delete_logs
  clean_up-SameTables logs sessions d h =
      let kept =
        (untouched (Store.cleanup_logs (Store.settings d).log_retention_days logs)
            (λ e. ground arith)).at
          d h in
      record {
        settings = kept.settings;
        subscriptions = kept.subscriptions;
        files = kept.files;
        sessions = λ k csrf n.
            exists-delete_false (λ s. text_eq s.token_hash k && text_eq csrf s.csrf_token)
              (λ s. not (Store.not_expired sessions s))
              (Store.cleanup_logs (Store.settings d).log_retention_days logs d).1.sessions
              (kept.sessions k csrf n);
      }
