-- ===== src/ClientIp/Resolver.antt =====
-- `clientIPResolver`: the configured prefixes and the address that a request is taken to come from.
-- The read-write mutex makes each method one step.
use sub_manager.Base.{
  Bool, true, false, not, ◌&&◌, ◌||◌, Option, none, some, List, [], ◌∷◌, ◌++◌, map, reverse, Text,
  codes, exists, find, if◌then◌else◌,
}
use sub_manager.ClientIp.Netip.{Addr, invalid, Prefix, NetipText, is_valid, prefix_contains}
use sub_manager.ClientIp.Parse.{
  Header, normalize_ip_addr, parse_trusted_proxy_prefixes, parse_remote_ip, parse_forwarded_for,
  parse_real_ip,
}

pub record ClientIpResolver : Type 0 where
  pub environment : List Prefix
  pub configured : List Prefix
  pub trust_all_default : Bool

pub record RequestNetworkInfo : Type 0 where
  pub client_ip : Text
  pub remote_ip : Addr
  pub from_trusted_proxy : Bool

abbrev pub no_prefixes : List Prefix → Bool
no_prefixes [] = true
no_prefixes (p ∷ ps) = false

unfoldable pub is_trusted : ClientIpResolver → Addr → Bool
is_trusted r addr =
    if not (is_valid addr)
    then false
    else let a = normalize_ip_addr addr in
      exists (λ p. prefix_contains p a) r.environment
      || exists (λ p. prefix_contains p a) r.configured

unfoldable pub is_trusted_peer : ClientIpResolver → Addr → Bool
is_trusted_peer r addr =
    if is_trusted r addr
    then true
    else r.trust_all_default && no_prefixes r.environment && no_prefixes r.configured

-- The loop from the right end of the chain to the first address that is not trusted.
unfoldable pub last_untrusted : ClientIpResolver → List Addr → Option Addr
last_untrusted r chain = find (λ a. not (is_trusted r a)) (reverse chain)

-- `strings.Join(items, "\n")`
unfoldable pub join_lines : List Text → Text
join_lines [] = []
join_lines (v ∷ []) = v
join_lines (v ∷ w ∷ vs) = v ++ 10 ∷ join_lines (w ∷ vs)

module _ (net : NetipText) where
  unfoldable pub new_client_ip_resolver : Text → Bool → Option ClientIpResolver
  new_client_ip_resolver environment trust_all =
      elim (parse_trusted_proxy_prefixes net environment) [
        | none ↦ none
        | some prefixes ↦
            some (record { environment = prefixes; configured = []; trust_all_default = trust_all })
      ]

  -- The new state, and whether there was no error.
  unfoldable pub set_configured : Text → ClientIpResolver → ClientIpResolver × Bool
  set_configured value r = elim (parse_trusted_proxy_prefixes net value) [
    | none ↦ (r, false)
    | some prefixes ↦ (record r { configured = prefixes }, true)
  ]

  abbrev client_or : RequestNetworkInfo → Option Addr → RequestNetworkInfo
  client_or info none = info
  client_or info (some a) = record info { client_ip = net.addr_string a }

  -- What is done with the header fields of a trusted peer.
  abbrev read_forwarding :
      ClientIpResolver → RequestNetworkInfo → Header → List Addr × Bool × Bool → RequestNetworkInfo
  read_forwarding r info header (chain, true, true) = client_or info (last_untrusted r chain)
  read_forwarding r info header (chain, true, false) = info
  read_forwarding r info header (chain, false, valid) = client_or info (parse_real_ip net header)

  abbrev resolve_remote : ClientIpResolver → Header → Option Addr → RequestNetworkInfo
  resolve_remote r header none = record {
    client_ip = codes "unknown";
    remote_ip = invalid;
    from_trusted_proxy = false;
  }
  resolve_remote r header (some remote) =
      let client = net.addr_string remote in
      if not (is_trusted_peer r remote)
      then record { client_ip = client; remote_ip = remote; from_trusted_proxy = false }
      else read_forwarding r
          (record { client_ip = client; remote_ip = remote; from_trusted_proxy = true }) header
          (parse_forwarded_for net header)

  unfoldable pub resolve : ClientIpResolver → Text → Header → RequestNetworkInfo
  resolve r remote_addr header = resolve_remote r header (parse_remote_ip net remote_addr)

  -- `canonicalTrustedProxies`: the prefixes, printed on lines of their own.
  unfoldable pub canonical_trusted_proxies : Text → Option Text
  canonical_trusted_proxies value = elim (parse_trusted_proxy_prefixes net value) [
    | none ↦ none
    | some prefixes ↦ some (join_lines (map net.prefix_string prefixes))
  ]
