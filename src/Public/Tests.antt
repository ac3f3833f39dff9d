-- ===== src/Public/Tests.antt =====
-- Requests to a site with one text subscription, and the theorems on the public route applied.
mod Delivery
use sub_manager.Base.{
  ◌*◌, ◌≤◌, ◌≡◌, refl, Bool, true, false, none, [], ◌∷◌, Text, codes, text_eq, has_prefix, byte_len,
  update_where, ◌==◌, arith,
}
use sub_manager.Clock.{Time, second}
use sub_manager.Helpers.{Client, path_char, validate_subscription_metadata}
use sub_manager.Store
use sub_manager.Store.{Db, SubscriptionRow, text_subscription}
use sub_manager.Store.Valid.{IsValid}
use sub_manager.Public.{not_found, public_subscription}
use sub_manager.Public.Served.{unserved_unchanged}
use sub_manager.Public.Shadowed.{admin_paths_shadowed}

abbrev pub start : Time
start = 1_000_000 * second

abbrev client_name : Client → Text
client_name c = codes "client"

abbrev opens : Text → Bool
opens key = false

abbrev pub home : SubscriptionRow
home = record {
  id = 1;
  name = codes "home";
  path = codes "/home";
  content = codes "proxies";
  kind = text_subscription;
  file_id = none;
  download_name = [];
  enabled = true;
  fetch_count = 2;
  current_fetch_count = 0;
  file_revision = 0;
  last_fetched_at = none;
  last_fetched_ip = [];
  created_at = start;
  updated_at = start;
}

abbrev pub site : Db
site = record {
  settings = record {
    password_hash = codes "p";
    must_change = false;
    session_version = 5;
    log_retention_days = 30;
    trusted_proxies = [];
  };
  sessions = [];
  subscriptions = home ∷ [];
  last_subscription = 1;
  files = [];
  last_file = 0;
  stats = [];
  logs = [];
  last_log = 0;
}

pub site-IsValid : IsValid site
site-IsValid = record {
  subs = record {
    ids = ground arith;
    bound = ground arith;
    paths = ground arith;
    kinds = ground arith;
    counts = ground arith;
  };
  files = record {
    ids = ground arith;
    bound = ground arith;
    digests = ground arith;
    keys = ground arith;
  };
  refs = record { sub_files = ground arith; stat_rows = ground arith; log_rows = ground arith };
  pairs = ground arith;
}

unserved_example :
    (public_subscription client_name opens
      (codes "/work")
      (codes "9.9.9.9")
      (codes "curl/8")
      (codes "GET")
      start
      site).1
    ≡ site
unfolding public_subscription Store.subscription_by_path text_eq has_prefix
unserved_example =
    unserved_unchanged client_name opens (codes "/work") (codes "9.9.9.9") (codes "curl/8")
      (codes "GET") start site refl

shadowed_example :
    (validate_subscription_metadata (codes "mine") (codes "/admin1") ≡ none)
    × (public_subscription client_name opens
          (codes "/admin1")
          (codes "9.9.9.9")
          (codes "curl/8")
          (codes "GET")
          start
          site
        ≡ (not_found, site))
unfolding path_char
shadowed_example =
    admin_paths_shadowed client_name opens (codes "mine") b'1' [] (codes "9.9.9.9") (codes "curl/8")
      (codes "GET") start site (omega arith) refl (omega arith)
