-- ===== src/Admin/Tests.antt =====
-- Logins and changes of the password of a small site, and the theorems on the guards applied.
use sub_manager.Base.{
  Bool, true, byte_len, ◌+◌, ◌*◌, ◌≡◌, ◌≢◌, refl, false, some, [], ◌∷◌, Text, codes, text_eq, arith,
  exists, ◌&&◌, ◌==◌, ◌<◌, ◌⊎◌,
}
use sub_manager.Clock.{
  Time, nanoseconds, second, hour, add_duration, session_duration, db_time, db_time_lt,
}
use sub_manager.Limiter.{allowed, attempt}
use sub_manager.Base.Dict.{lookup}
use sub_manager.Store
use sub_manager.Store.{Db, Session, ok}
use sub_manager.Admin.{
  App, set_session, AuthContext, pass, require_admin, login, password_error, handle_change_password,
}
use sub_manager.Admin.Access.{IsOpen, require_admin_sound, login_opens, password_change_ends}

abbrev hash : Text → Text
hash t = b'#' ∷ t

-- The hash of a password is the password.
abbrev matches : Text → Text → Bool
matches h p = text_eq h p

abbrev start : Time
start = 1_000_000 * second

abbrev site : App
site = record {
  db = record {
    settings = record {
      password_hash = codes "pass";
      must_change = false;
      session_version = 5;
      log_retention_days = 30;
      trusted_proxies = [];
    };
    sessions =
        record {
          token_hash = codes "#t";
          csrf_token = codes "c";
          version = 5;
          expires_at = start + hour;
          created_at = start;
        }
        ∷ [];
    subscriptions = [];
    last_subscription = 0;
    files = [];
    last_file = 0;
    stats = [];
    logs = [];
    last_log = 0;
  };
  limiter = [];
}

abbrev present : AuthContext
present = record {
  token = codes "t";
  session = record { csrf_token = codes "c"; version = 5; expires_at = start + hour };
  config = site.db.settings;
}

let_in : require_admin hash (some (codes "t")) (codes "/admin/") start site ≡ pass present
unfolding require_admin Store.session Store.settings db_time_lt db_time text_eq
let_in = refl

admin_sound_example :
    (some (codes "t") ≡ some present.token)
    × (exists
          (λ row.
            text_eq row.token_hash (hash present.token)
            && text_eq row.csrf_token present.session.csrf_token
            && row.version == present.session.version
            && row.expires_at == present.session.expires_at)
          site.db.sessions
        ≡ true)
    × (present.session.version ≡ site.db.settings.session_version)
    × (start < present.session.expires_at + nanoseconds)
    × (present.config ≡ site.db.settings)
    × ((site.db.settings.must_change ≡ false) ⊎ IsOpen (codes "/admin/"))
admin_sound_example =
    require_admin_sound hash (some (codes "t")) (codes "/admin/") start site present let_in

login_example :
    let (r, site') =
      login hash matches
        (codes "1.2.3.4")
        (codes "pass")
        (some (codes "u"))
        (some (codes "d"))
        12
        start
        start
        start
        start
        site in
    (r.cookie ≡ set_session (codes "u") (add_duration start (session_duration 12)))
    × (require_admin hash (some (codes "u")) (codes "/admin/") (start + hour) site'
        ≡ pass (record {
          token = codes "u";
          session = record {
            csrf_token = codes "d";
            version = 5;
            expires_at = add_duration start (session_duration 12);
          };
          config = site.db.settings;
        }))
unfolding text_eq allowed attempt lookup db_time_lt db_time session_duration add_duration
login_example =
    login_opens hash matches (codes "1.2.3.4") (codes "pass") (codes "u") (codes "d")
      (codes "/admin/") 12 start start start start (start + hour) site refl refl refl refl refl

password_change_example :
    require_admin hash
      (some (codes "t"))
      (codes "/admin/")
      start
      (handle_change_password hash matches
        (λ p. some p)
        present
        (codes "pass")
        (codes "word")
        (codes "word")
        (some (codes "u"))
        (some (codes "d"))
        12
        start
        start
        site).1
    ≢ pass present
unfolding password_error text_eq byte_len
password_change_example =
    password_change_ends hash matches (λ p. some p) present present (codes "pass") (codes "word")
      (codes "word") (codes "word") (some (codes "u")) (some (codes "d")) 12 start start site
      (codes "t") (codes "/admin/") start refl refl (λ t e. λ h. ground arith)
