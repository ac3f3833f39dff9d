-- ===== src/Settings/Tests.antt =====
-- A change of the settings, and the theorem on it applied.
use sub_manager.Base.{
  ◌≤◌, ◌≡◌, refl, true, false, some, [], codes, trim_space, trim_left, trim_right, is_space,
  contains, has_prefix, arith,
}
use sub_manager.ClientIp
use sub_manager.ClientIp.{NetipText, Addr, ip4, Prefix}
use sub_manager.Web.{parse_retention}
use sub_manager.Web.Numbers.{digits_from}
use sub_manager.Settings.{SettingsState, handle_update_settings}
use sub_manager.Settings.Applied.{InForce, is_failure, update_settings-InForce}

-- The only address is 9.9.9.9.
abbrev net : NetipText
net = record {
  parse_addr = λ s. some (ip4 0x09090909);
  parse_prefix = λ s. some (record { addr = ip4 0x09090909; bits = 32 });
  parse_addr_port = λ s. some (ip4 0x09090909);
  addr_string = λ a. codes "9.9.9.9";
  prefix_string = λ p. codes "9.9.9.9/32";
}

abbrev before : SettingsState
before = record {
  db = record {
    settings = record {
      password_hash = codes "p";
      must_change = false;
      session_version = 5;
      log_retention_days = 30;
      trusted_proxies = [];
    };
    sessions = [];
    subscriptions = [];
    last_subscription = 0;
    files = [];
    last_file = 0;
    stats = [];
    logs = [];
    last_log = 0;
  };
  resolver = record { environment = []; configured = []; trust_all_default = true };
}

in_force : InForce net before
unfolding ClientIp.parse_trusted_proxy_prefixes ClientIp.collect_prefixes ClientIp.fields
    ClientIp.fields_from
in_force = refl

abbrev after : SettingsState
after = (handle_update_settings net (codes "60") (codes "9.9.9.9") before).1

accepted : is_failure (handle_update_settings net (codes "60") (codes "9.9.9.9") before).0 ≡ false
unfolding handle_update_settings parse_retention digits_from ClientIp.canonical_trusted_proxies
    ClientIp.set_configured ClientIp.join_lines ClientIp.parse_trusted_proxy_prefixes
    ClientIp.collect_prefixes ClientIp.fields ClientIp.fields_from
    ClientIp.parse_trusted_proxy_prefix ClientIp.canonical_prefix ClientIp.is_4in6 contains
    has_prefix trim_space trim_left trim_right is_space
accepted = refl

settings_example : InForce net after × (after.db.settings.log_retention_days ≤ 36500)
settings_example =
    update_settings-InForce net (codes "60") (codes "9.9.9.9") before in_force (omega arith)
      accepted
