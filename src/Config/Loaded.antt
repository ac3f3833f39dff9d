-- ===== src/Config/Loaded.antt =====
-- What `LoadConfig` returns can be used.
use sub_manager.Base.{
  ℕ, ◌*◌, ◌==◌, ◌≤◌, ◌≡◌, ◌∙◌, ap, refl, subst, sym, Bool, true, false, Option, none, some, [],
  String, Text, codes, is_empty, trim_space, trim_right, to_lower, arith, Bool-cases, inl, inr,
}
use sub_manager.ClientIp
use sub_manager.ClientIp.{NetipText}
use sub_manager.Storage.{CleanPath}
use sub_manager.Web.Numbers.{parse_signed}
use sub_manager.Config
use sub_manager.Config.{
  Config, Loading, loaded, refused, Environment, env_or, path_text, join_text, cookie_ok,
  megabytes_checked, upload_limit, proxies_set, with_proxies, with_limit, load_config,
  with_defaults, dot_if_empty, join_slash,
}

env_or_full :
    (env : Environment) (key : String) (fallback : Text)
    → is_empty fallback ≡ false
    → is_empty (env_or env key fallback) ≡ false
unfolding env_or
env_or_full env key fallback h = elim (Bool-cases (is_empty (trim_space (env (codes key))))) [
  | inl empty ↦ rw empty h
  | inr full ↦ rw full full
]

path_text_full : (p : CleanPath) → is_empty (path_text p) ≡ false
unfolding path_text
path_text_full p = ground arith

join_text_full : (base name : Text) → is_empty (join_text base name) ≡ false
unfolding join_text
join_text_full base name = path_text_full _

-- The sizes are in bytes: whole MiB, from 1 to 10240 of them.
pub record IsUsable (cfg : Config) : Type 0 where
  pub addr : is_empty cfg.addr ≡ false
  pub database_path : is_empty cfg.database_path ≡ false
  pub files_dir : is_empty cfg.files_dir ≡ false
  pub cookie_secure : cookie_ok cfg.cookie_secure ≡ true
  pub mebibytes : ℕ
  pub limit : cfg.max_upload_bytes ≡ mebibytes * 1024 * 1024
  pub at_least : 1 ≤ mebibytes
  pub at_most : mebibytes ≤ 10240
  pub as_is : with_defaults cfg ≡ cfg

limit_in_range :
    (raw : Text) (bytes : ℕ)
    → upload_limit raw ≡ some bytes
    → (m : ℕ) × (bytes ≡ m * 1024 * 1024) × (1 ≤ m) × (m ≤ 10240)
unfolding upload_limit
limit_in_range raw bytes h = elim (Bool-cases (is_empty raw)) [
  | inl unset ↦ (100, ground arith, omega arith, omega arith)
  | inr set ↦ go (parse_signed raw) (rw set at h)
]
  where
    go :
        (o : Option ℕ)
        → megabytes_checked o ≡ some bytes
        → (m : ℕ) × (bytes ≡ m * 1024 * 1024) × (1 ≤ m) × (m ≤ 10240)
    go none k = absurd (ground arith)
    go (some n) k = (n, ground arith, ground arith, ground arith)

usable :
    (cfg : Config) (m : ℕ)
    → is_empty cfg.addr ≡ false
    → is_empty cfg.database_path ≡ false
    → is_empty cfg.files_dir ≡ false
    → cookie_ok cfg.cookie_secure ≡ true
    → cfg.max_upload_bytes ≡ m * 1024 * 1024
    → 1 ≤ m
    → m ≤ 10240
    → IsUsable cfg
unfolding with_defaults
usable cfg m a d f c e low high = record {
  addr = a;
  database_path = d;
  files_dir = f;
  cookie_secure = c;
  mebibytes = m;
  limit = e;
  at_least = low;
  at_most = high;
  as_is =
      let some_bytes : (cfg.max_upload_bytes == 0) ≡ false = ground arith in
      rw (f, some_bytes) refl;
}

module _ (net : NetipText) where
  loaded_inj : (c d : Config) → loaded c ≡ loaded d → c ≡ d
  loaded_inj c d e = cc

  with_proxies-IsUsable :
      (raw : Text) (base cfg : Config)
      → ((proxies : Text) (all : Bool)
          → IsUsable (record base { trusted_proxies = proxies; trust_all_by_default = all }))
      → base.trusted_proxies ≡ []
      → base.trust_all_by_default ≡ false
      → with_proxies net raw base ≡ loaded cfg
      → IsUsable cfg × (cfg.trust_all_by_default ≡ is_empty raw)
  unfolding with_proxies
  with_proxies-IsUsable raw base cfg good p t h = elim (Bool-cases (is_empty raw)) [
    | inl unset ↦
        let e = loaded_inj (record base { trust_all_by_default = true }) cfg (rw unset at h) in
        (
          subst IsUsable e (good base.trusted_proxies true),
          ap (λ (c : Config). c.trust_all_by_default) (sym e) ∙ sym unset,
        )
    | inr set ↦
        let k : proxies_set base (ClientIp.canonical_trusted_proxies net raw) ≡ loaded cfg =
          rw set at h in
        let (usable_cfg, same) = parsed (ClientIp.canonical_trusted_proxies net raw) k in
        (usable_cfg, same ∙ t ∙ sym set)
  ]
    where
      parsed :
          (o : Option Text)
          → proxies_set base o ≡ loaded cfg
          → IsUsable cfg × (cfg.trust_all_by_default ≡ base.trust_all_by_default)
      parsed none k = absurd (ground arith)
      parsed (some proxies) k =
          let e = loaded_inj (record base { trusted_proxies = proxies }) cfg k in
          (
            subst IsUsable e (good proxies base.trust_all_by_default),
            ap (λ (c : Config). c.trust_all_by_default) (sym e),
          )

  -- A configuration that is loaded can be used: the address, the path of the database and the files
  -- directory are not empty, the setting of secure cookies is one of the three, uploads are limited to a
  -- whole number of MiB from 1 to 10240, and `New` leaves it as it is. All proxies are trusted by default
  -- exactly if none are given.
  pub load_config-IsUsable :
      (env : Environment) (cfg : Config)
      → load_config net env ≡ loaded cfg
      → IsUsable cfg
        × (cfg.trust_all_by_default ≡ is_empty (trim_space (env (codes "TRUSTED_PROXIES"))))
  unfolding load_config
  load_config-IsUsable env cfg h =
      go (upload_limit (trim_space (env (codes "MAX_UPLOAD_SIZE_MB")))) refl h
    where
      base : Config
      base = record {
        addr = env_or env "ADDR" (codes ":8080");
        database_path =
            env_or env "DATABASE_PATH"
              (join_text (env_or env "DATA_DIR" (codes "/data")) (codes "app.db"));
        files_dir =
            env_or env "FILES_DIR"
              (join_text (env_or env "DATA_DIR" (codes "/data")) (codes "files"));
        max_upload_bytes = Config.default_max_upload_bytes;
        base_url = trim_right (λ c. c == b'/') (env (codes "BASE_URL"));
        cookie_secure = to_lower (env_or env "COOKIE_SECURE" (codes "auto"));
        trusted_proxies = [];
        trust_all_by_default = false;
        session_hours = 12;
        default_retain = 90;
      }

      go :
          (o : Option ℕ)
          → upload_limit (trim_space (env (codes "MAX_UPLOAD_SIZE_MB"))) ≡ o
          → with_limit net env base o ≡ loaded cfg
          → IsUsable cfg
            × (cfg.trust_all_by_default ≡ is_empty (trim_space (env (codes "TRUSTED_PROXIES"))))
      go none e k = absurd (ground arith)
      go (some bytes) e k = elim (Bool-cases (cookie_ok base.cookie_secure)) [
        | inr odd ↦ absurd (ground (arith, rw odd at k))
        | inl fine ↦
            let (m, eq, low, high) =
              limit_in_range (trim_space (env (codes "MAX_UPLOAD_SIZE_MB"))) bytes e in
            with_proxies-IsUsable (trim_space (env (codes "TRUSTED_PROXIES")))
              (record base { max_upload_bytes = bytes }) cfg
              (λ proxies all.
                usable
                  (record base {
                    max_upload_bytes = bytes;
                    trusted_proxies = proxies;
                    trust_all_by_default = all;
                  })
                  m (env_or_full env "ADDR" (codes ":8080") refl)
                  (env_or_full env "DATABASE_PATH" _ (join_text_full _ _))
                  (env_or_full env "FILES_DIR" _ (join_text_full _ _)) fine eq low high)
              refl refl (rw fine at k)
      ]
