-- ===== src/Settings/Applied.antt =====
-- The stored settings and those in force.
use sub_manager.Base.{
  ℕ, ◌≤◌, ◌≡◌, refl, ap, sym, subst, Bool, true, false, Option, none, some, List, Text, ltb, arith,
  Bool-cases, inl, inr,
}
use sub_manager.ClientIp
use sub_manager.ClientIp.{
  NetipText, Prefix, ClientIpResolver, parse_trusted_proxy_prefixes, set_configured,
}
use sub_manager.Web.{parse_retention}
use sub_manager.Store
use sub_manager.Store.{Db}
use sub_manager.Admin.{Response, redirect, page, error_page}
use sub_manager.Settings.{
  SettingsState, handle_update_settings, apply, applied, checked_proxies, checked_retention,
}

-- The prefixes of the resolver are those that the stored text stands for.
abbrev pub InForce : NetipText → SettingsState → Type 0
InForce net st =
    parse_trusted_proxy_prefixes net st.db.settings.trusted_proxies ≡ some st.resolver.configured

-- The reply is that of an internal error.
abbrev pub is_failure : Response → Bool
is_failure (redirect t) = false
is_failure (page n t) = false
is_failure (error_page n) = true
is_failure _ = false

module _ (net : NetipText) where
  applied-db : (d : Db) (x : ClientIpResolver × Bool) → (applied net d x).1.db ≡ d
  applied-db d (r, true) = refl
  applied-db d (r, false) = refl

  applied-InForce :
      (d : Db) (r : ClientIpResolver) (o : Option (List Prefix))
      → parse_trusted_proxy_prefixes net d.settings.trusted_proxies ≡ o
      → let x : ClientIpResolver × Bool = elim o [
        | none ↦ (r, false)
        | some ps ↦ (record r { configured = ps }, true)
      ] in
        is_failure (applied net d x).0 ≡ false → InForce net (applied net d x).1
  applied-InForce d r none e h = absurd (ground arith)
  applied-InForce d r (some ps) e h = e

  apply-InForce :
      (retention : ℕ) (proxies : Text) (st : SettingsState)
      → is_failure (apply net retention proxies st).0 ≡ false
      → InForce net (apply net retention proxies st).1
  unfolding Store.update_settings set_configured
  apply-InForce retention proxies st h =
      applied-InForce (Store.update_settings retention proxies st.db).1 st.resolver
        (parse_trusted_proxy_prefixes net proxies) refl h

  apply_days :
      (retention : ℕ) (proxies : Text) (st : SettingsState)
      → (apply net retention proxies st).1.db.settings.log_retention_days ≡ retention
  unfolding Store.update_settings
  apply_days retention proxies st =
      ap (λ (d : Db). d.settings.log_retention_days)
        (applied-db (Store.update_settings retention proxies st.db).1
          (set_configured net proxies st.resolver))

  small_enough : (n : ℕ) → ltb 36500 n ≡ false → n ≤ 36500
  small_enough n h = ground arith

  -- As long as no request ends in an internal error, the resolver works with the proxies that are
  -- stored, and the retention time stays within its bound: each request for new settings keeps both.
  pub update_settings-InForce :
      (retention proxies : Text) (st : SettingsState)
      → InForce net st
      → st.db.settings.log_retention_days ≤ 36500
      → is_failure (handle_update_settings net retention proxies st).0 ≡ false
      → InForce net (handle_update_settings net retention proxies st).1
        × ((handle_update_settings net retention proxies st).1.db.settings.log_retention_days
            ≤ 36500)
  unfolding handle_update_settings
  update_settings-InForce retention proxies st before bounded h = go (parse_retention retention) h
    where
      proxies_kept :
          (n : ℕ) (o : Option Text)
          → n ≤ 36500
          → is_failure (checked_proxies net n st o).0 ≡ false
          → InForce net (checked_proxies net n st o).1
            × ((checked_proxies net n st o).1.db.settings.log_retention_days ≤ 36500)
      proxies_kept n none small k = (before, bounded)
      proxies_kept n (some text) small k =
          (apply-InForce n text st k, subst (λ m. m ≤ 36500) (sym (apply_days n text st)) small)

      go :
          (o : Option ℕ)
          → is_failure (checked_retention net proxies st o).0 ≡ false
          → InForce net (checked_retention net proxies st o).1
            × ((checked_retention net proxies st o).1.db.settings.log_retention_days ≤ 36500)
      go none k = (before, bounded)
      go (some n) k = elim (Bool-cases (ltb 36500 n)) [
        | inl large ↦ rw large (before, bounded)
        | inr small ↦ rw small (
            proxies_kept n (ClientIp.canonical_trusted_proxies net proxies) (small_enough n small)
              (rw small at k))
      ]
