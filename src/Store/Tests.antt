-- ===== src/Store/Tests.antt =====
-- A database with three subscriptions and two files, on which the children run the store.
mod Calls
mod Catalogs
mod Reads
use sub_manager.Base.{
  ◌+◌, ◌*◌, ◌<◌, ◌≡◌, refl, true, false, none, some, List, [], ◌∷◌, Text, codes, arith, count_where,
  delete_where, update_where, map, text_eq,
}
use sub_manager.Clock.{Time, hour, nanoseconds, db_time, db_time_lt}
use sub_manager.Store
use sub_manager.Store.{
  Db, SettingsRow, SessionRow, SubscriptionRow, FileRow, StatRow, LogRow, text_subscription,
  file_subscription, Command, Subscription, Session, ok, err,
}
use sub_manager.Store.Valid.{IsValid}
use sub_manager.Store.Valid.History.{run_all-IsValid}
use sub_manager.Store.Counting.{access_atomic, fetch_across_replacement, current_count}
use sub_manager.Store.Associations.{associations_move, delete_file_exact}
use sub_manager.Store.Login.{
  stale_login, session-create, session-delete, session-purge, session_sound,
}
use sub_manager.Store.Logs.{pages_complete, first_pages}

abbrev pub start : Time
start = 1_000_000 * nanoseconds

abbrev pub hash : Text → Text
hash t = b'#' ∷ t

abbrev pub text_row : SubscriptionRow
text_row = record {
  id = 1;
  name = codes "home";
  path = codes "/home";
  content = codes "proxies";
  kind = text_subscription;
  file_id = none;
  download_name = [];
  enabled = true;
  fetch_count = 2;
  current_fetch_count = 0;
  file_revision = 0;
  last_fetched_at = some start;
  last_fetched_ip = codes "9.9.9.9";
  created_at = start;
  updated_at = start;
}

abbrev pub file_row : SubscriptionRow
file_row = record {
  id = 2;
  name = codes "work";
  path = codes "/work";
  content = [];
  kind = file_subscription;
  file_id = some 1;
  download_name = codes "work.yaml";
  enabled = true;
  fetch_count = 7;
  current_fetch_count = 3;
  file_revision = 4;
  last_fetched_at = some start;
  last_fetched_ip = codes "9.9.9.9";
  created_at = start;
  updated_at = start;
}

abbrev pub spare_row : SubscriptionRow
spare_row = record {
  id = 3;
  name = codes "spare";
  path = codes "/spare";
  content = codes "none";
  kind = text_subscription;
  file_id = none;
  download_name = [];
  enabled = false;
  fetch_count = 0;
  current_fetch_count = 0;
  file_revision = 0;
  last_fetched_at = none;
  last_fetched_ip = [];
  created_at = start;
  updated_at = start;
}

abbrev pub first_file : FileRow
first_file = record {
  id = 1;
  md5 = codes "m1";
  sha256 = codes "s1";
  size = 10;
  content_type = codes "text/plain";
  storage_key = codes "k1";
  original_name = codes "a.yaml";
  download_count = 7;
  last_downloaded_at = some start;
  last_downloaded_ip = codes "9.9.9.9";
  created_at = start;
  updated_at = start;
}

abbrev pub second_file : FileRow
second_file = record {
  id = 2;
  md5 = codes "m2";
  sha256 = codes "s2";
  size = 20;
  content_type = codes "text/plain";
  storage_key = codes "k2";
  original_name = codes "b.yaml";
  download_count = 0;
  last_downloaded_at = none;
  last_downloaded_ip = [];
  created_at = start;
  updated_at = start;
}

abbrev pub first_log : LogRow
first_log = record {
  id = 1;
  subscription_id = 2;
  file_id = some 1;
  requested_at = start;
  client_ip = codes "9.9.9.9";
  client_name = codes "curl";
  user_agent = codes "curl/8";
  method = codes "GET";
  status_code = 200;
}

abbrev pub second_log : LogRow
second_log = record first_log { id = 2; requested_at = start + hour }

abbrev pub home : Db
home = record {
  settings = record {
    password_hash = codes "p";
    must_change = false;
    session_version = 5;
    log_retention_days = 30;
    trusted_proxies = [];
  };
  sessions =
      record {
        token_hash = codes "#t";
        csrf_token = codes "c";
        version = 5;
        expires_at = start + hour;
        created_at = start;
      }
      ∷ [];
  subscriptions = text_row ∷ file_row ∷ spare_row ∷ [];
  last_subscription = 3;
  files = first_file ∷ second_file ∷ [];
  last_file = 2;
  stats =
      record {
        file_id = 1;
        subscription_id = 2;
        download_count = 7;
        last_downloaded_at = start;
        last_downloaded_ip = codes "9.9.9.9";
      }
      ∷ [];
  logs = first_log ∷ second_log ∷ [];
  last_log = 2;
}

pub home-IsValid : IsValid home
home-IsValid = record {
  subs = record {
    ids = ground arith;
    bound = ground arith;
    paths = ground arith;
    kinds = ground arith;
    counts = ground arith;
  };
  files = record {
    ids = ground arith;
    bound = ground arith;
    digests = ground arith;
    keys = ground arith;
  };
  refs = record { sub_files = ground arith; stat_rows = ground arith; log_rows = ground arith };
  pairs = ground arith;
}
