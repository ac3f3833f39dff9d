-- ===== src/Config.antt =====
-- internal/app/config.go: the configuration, from the environment as a function of the names of the
-- variables, and the defaults that `New` of internal/app/app.go puts in.
pub mod Loaded
mod Tests
use sub_manager.Base.{
  ℕ, suc, zero, ◌*◌, ◌==◌, ltb, Bool, true, false, not, ◌&&◌, ◌||◌, Option, none, some, List, [],
  ◌∷◌, ◌++◌, reverse, String, Text, codes, text_eq, is_empty, trim_space, trim_left, trim_right,
  to_lower, if◌then◌else◌,
}
use sub_manager.ClientIp
use sub_manager.ClientIp.{NetipText}
use sub_manager.Storage.{CleanPath, clean, dots}
use sub_manager.Web.Numbers.{parse_signed}

abbrev pub default_max_upload_bytes : ℕ
default_max_upload_bytes = 100 * 1024 * 1024

pub record Config : Type 0 where
  pub addr : Text
  pub database_path : Text
  pub files_dir : Text
  pub max_upload_bytes : ℕ
  pub base_url : Text
  pub cookie_secure : Text
  pub trusted_proxies : Text
  pub trust_all_by_default : Bool
  pub session_hours : ℕ
  pub default_retain : ℕ

-- One error for each message.
pub data ConfigError : Type 0 where
  bad_upload_size bad_cookie_secure bad_trusted_proxies : ConfigError

pub data Loading : Type 0 where
  loaded : Config → Loading
  refused : ConfigError → Loading

abbrev pub Environment : Type 0
Environment = Text → Text

unfoldable pub env_or : Environment → String → Text → Text
env_or env key fallback =
    let value = trim_space (env (codes key)) in if is_empty value then fallback else value

-- The text of a cleaned path.
unfoldable pub join_slash : List Text → Text
join_slash [] = []
join_slash (n ∷ []) = n
join_slash (n ∷ m ∷ ns) = n ++ b'/' ∷ join_slash (m ∷ ns)

abbrev pub dot_if_empty : Text → Text
dot_if_empty s = if is_empty s then b'.' ∷ [] else s

unfoldable pub path_text : CleanPath → Text
path_text p =
    if p.rooted
    then b'/' ∷ join_slash p.names
    else dot_if_empty (join_slash (dots p.ups ++ p.names))

-- `filepath.Join` of two texts that are not empty.
unfoldable pub join_text : Text → Text → Text
join_text base name = path_text (clean (base ++ b'/' ∷ name))

-- `filepath.Dir`: what stands before the last slash, cleaned.
unfoldable pub dir_text : Text → Text
dir_text path = path_text (clean (reverse (trim_left (λ c. not (c == b'/')) (reverse path))))

-- The limit on uploads; `none` is an error.
abbrev pub megabytes_checked : Option ℕ → Option ℕ
megabytes_checked none = none
megabytes_checked (some n) = if ltb n 1 || ltb 10240 n then none else some (n * 1024 * 1024)

unfoldable pub upload_limit : Text → Option ℕ
upload_limit raw =
    if is_empty raw then some default_max_upload_bytes else megabytes_checked (parse_signed raw)

abbrev pub cookie_ok : Text → Bool
cookie_ok c = text_eq c (codes "auto") || text_eq c (codes "true") || text_eq c (codes "false")

abbrev pub proxies_set : Config → Option Text → Loading
proxies_set cfg none = refused bad_trusted_proxies
proxies_set cfg (some proxies) = loaded (record cfg { trusted_proxies = proxies })

module _ (net : NetipText) where
  -- TRUSTED_PROXIES, once the rest is checked.
  unfoldable pub with_proxies : Text → Config → Loading
  with_proxies raw cfg =
      if is_empty raw
      then loaded (record cfg { trust_all_by_default = true })
      else proxies_set cfg (ClientIp.canonical_trusted_proxies net raw)

  abbrev pub with_limit : Environment → Config → Option ℕ → Loading
  with_limit env cfg none = refused bad_upload_size
  with_limit env cfg (some bytes) =
      if not (cookie_ok cfg.cookie_secure)
      then refused bad_cookie_secure
      else with_proxies (trim_space (env (codes "TRUSTED_PROXIES")))
          (record cfg { max_upload_bytes = bytes })

  unfoldable pub load_config : Environment → Loading
  load_config env =
      let data_dir = env_or env "DATA_DIR" (codes "/data") in
      with_limit env
        (record {
          addr = env_or env "ADDR" (codes ":8080");
          database_path = env_or env "DATABASE_PATH" (join_text data_dir (codes "app.db"));
          files_dir = env_or env "FILES_DIR" (join_text data_dir (codes "files"));
          max_upload_bytes = default_max_upload_bytes;
          base_url = trim_right (λ c. c == b'/') (env (codes "BASE_URL"));
          cookie_secure = to_lower (env_or env "COOKIE_SECURE" (codes "auto"));
          trusted_proxies = [];
          trust_all_by_default = false;
          session_hours = 12;
          default_retain = 90;
        })
        (upload_limit (trim_space (env (codes "MAX_UPLOAD_SIZE_MB"))))

-- What `New` makes of a configuration.
unfoldable pub with_defaults : Config → Config
with_defaults cfg = record cfg {
  files_dir =
      if is_empty cfg.files_dir
      then join_text (dir_text cfg.database_path) (codes "files")
      else cfg.files_dir;
  max_upload_bytes =
      if cfg.max_upload_bytes == 0 then default_max_upload_bytes else cfg.max_upload_bytes;
}
