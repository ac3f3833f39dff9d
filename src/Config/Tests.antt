-- ===== src/Config/Tests.antt =====
-- An environment with a limit and a proxy, and the theorem on the configuration applied.
use sub_manager.Base.{
  ◌≡◌, refl, true, false, some, [], ◌∷◌, ◌++◌, Text, codes, text_eq, is_empty, trim_space,
  if◌then◌else◌,
}
use sub_manager.ClientIp.{NetipText, ip4}
use sub_manager.Config
use sub_manager.Config.{Config, Environment, loaded, load_config}
use sub_manager.Config.Loaded.{IsUsable, load_config-IsUsable}

-- The only address is 9.9.9.9.
abbrev net : NetipText
net = record {
  parse_addr = λ s. some (ip4 0x09090909);
  parse_prefix = λ s. some (record { addr = ip4 0x09090909; bits = 32 });
  parse_addr_port = λ s. some (ip4 0x09090909);
  addr_string = λ a. codes "9.9.9.9";
  prefix_string = λ p. codes "9.9.9.9/32";
}

abbrev environment : Environment
environment name =
    if text_eq name (codes "MAX_UPLOAD_SIZE_MB")
    then codes " 20"
    else if text_eq name (codes "COOKIE_SECURE")
    then codes "TRUE"
    else []

abbrev small_site : Config
small_site = record {
  addr = codes ":8080";
  database_path = codes "/data/app.db";
  files_dir = codes "/data/files";
  max_upload_bytes = 20971520;
  base_url = [];
  cookie_secure = codes "true";
  trusted_proxies = [];
  trust_all_by_default = true;
  session_hours = 12;
  default_retain = 90;
}

small_site_loaded : load_config net environment ≡ loaded small_site
unfolding load_config Config.upload_limit trim_space text_eq sub_manager.Web.Numbers.digits_from
    sub_manager.Base.to_lower Config.env_or Config.with_proxies Config.join_text Config.path_text
    sub_manager.Storage.clean Config.join_slash sub_manager.Storage.clean_parts
    sub_manager.Storage.split_slash
small_site_loaded = refl

load_config_example :
    IsUsable small_site
    × (small_site.trust_all_by_default
        ≡ is_empty (trim_space (environment (codes "TRUSTED_PROXIES"))))
load_config_example = load_config-IsUsable net environment small_site small_site_loaded
