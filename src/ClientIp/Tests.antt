-- ===== src/ClientIp/Tests.antt =====
-- A simple reader of addresses, requests, and the theorems on the resolver applied to them.
use sub_manager.Base.{
  ℕ, ◌==◌, ◌+◌, ◌*◌, ◌^◌, ◌≡◌, refl, true, Option, none, some, List, [], ◌∷◌, Text, codes, text_eq,
  trim_space, trim_left, trim_right, is_space, arith, contains, has_prefix, if◌then◌else◌,
}
use sub_manager.ClientIp.Netip.{
  Addr, ip4, ip6, Prefix, NetipText, masked, mask_addr, prefix_contains, addr_contains, prefix_eq,
  addr_eq, is_valid, with_zone, unmap, zone, bit_len, is_4in6,
}
use sub_manager.ClientIp.Parse.{
  Header, header_values, split_commas, join_commas, fields, fields_from, normalize_ip_addr,
  canonical_prefix, parse_trusted_proxy_prefix, collect_prefixes, parse_trusted_proxy_prefixes,
  parse_remote_ip, parse_forwarded_ip, parse_chain,
}
use sub_manager.ClientIp.Resolver.{
  ClientIpResolver, is_trusted, is_trusted_peer, last_untrusted, resolve,
}
use sub_manager.ClientIp.Spoofing.{resolve_forwarded}
use sub_manager.ClientIp.Mapped.{mapped, canonical-mapped}
use sub_manager.ClientIp.Trusted.{parse_trusted-Covers, Distinct, Covers}

-- 10.0.0.0, and the addresses of three hosts.
abbrev ten : ℕ
ten = 10 * 2 ^ 24

abbrev read_addr : Text → Option Addr
read_addr s =
    if text_eq s (codes "10.0.0.1")
    then some (ip4 (ten + 1))
    else if text_eq s (codes "9.9.9.9")
    then some (ip4 0x09090909)
    else if text_eq s (codes "8.8.8.8")
    then some (ip4 0x08080808)
    else none

abbrev show_addr : Addr → Text
show_addr (ip4 n) =
    if n == 0x09090909
    then codes "9.9.9.9"
    else if n == 0x08080808
    then codes "8.8.8.8"
    else codes "10.0.0.1"
show_addr _ = codes "::"

abbrev read_prefix : Text → Option Prefix
read_prefix s =
    if text_eq s (codes "10.0.0.0/8") then some (record { addr = ip4 ten; bits = 8 }) else none

abbrev net : NetipText
net = record {
  parse_addr = read_addr;
  parse_prefix = read_prefix;
  parse_addr_port = λ s.
      if text_eq s (codes "9.9.9.9:80")
      then some (ip4 0x09090909)
      else if text_eq s (codes "10.0.0.1:80")
      then some (ip4 (ten + 1))
      else none;
  addr_string = show_addr;
  prefix_string = λ p. codes "10.0.0.0/8";
}

abbrev resolver : ClientIpResolver
resolver = record {
  environment = record { addr = ip4 ten; bits = 8 } ∷ [];
  configured = [];
  trust_all_default = true;
}

-- The client at 9.9.9.9 pretends to be 8.8.8.8; the proxy at 10.0.0.1 appends its address.
abbrev header : Header
header = (codes "X-Forwarded-For", codes "8.8.8.8,9.9.9.9") ∷ []

forwarded_example : (resolve net resolver (codes "10.0.0.1:80") header).client_ip ≡ codes "9.9.9.9"
unfolding parse_remote_ip trim_space trim_left trim_right is_space text_eq normalize_ip_addr unmap
    with_zone is_trusted_peer is_trusted is_valid prefix_contains addr_contains parse_chain
    parse_forwarded_ip split_commas join_commas header_values last_untrusted zone
forwarded_example =
    resolve_forwarded net header (codes "8.8.8.8") (codes "9.9.9.9") resolver (codes "10.0.0.1:80")
      (ip4 (ten + 1)) (ip4 0x09090909) (ip4 0x09090909 ∷ []) refl refl refl refl refl

-- ::ffff:10.0.0.0/104 covers ::ffff:10.0.0.7, with a zone or without.
canonical_example :
    let written : Prefix = record { addr = ip6 (mapped ten) []; bits = 104 } in
    (q : Prefix) × (canonical_prefix written ≡ some q)
    × (is_trusted
          (record { environment = []; configured = q ∷ []; trust_all_default = true })
          (ip6 (mapped (ten + 7)) (codes "eth0"))
        ≡ prefix_contains written (ip6 (mapped (ten + 7)) []))
canonical_example =
    canonical-mapped ten 104 (ten + 7) [] (codes "eth0") true (omega arith) (omega arith)
      (omega arith) (omega arith)

abbrev setting : Text
setting = codes "10.0.0.0/8, 9.9.9.9 10.0.0.0/8"

abbrev setting_prefixes : List Prefix
setting_prefixes =
    record { addr = ip4 ten; bits = 8 } ∷ record { addr = ip4 0x09090909; bits = 32 } ∷ []

setting_read : parse_trusted_proxy_prefixes net setting ≡ some setting_prefixes
unfolding parse_trusted_proxy_prefixes collect_prefixes fields fields_from trim_space trim_left
    trim_right is_space parse_trusted_proxy_prefix contains has_prefix text_eq canonical_prefix
    is_4in6 unmap with_zone normalize_ip_addr masked mask_addr bit_len prefix_eq addr_eq
setting_read = refl

trusted_example : Distinct setting_prefixes × Covers net (fields setting) setting_prefixes
trusted_example = parse_trusted-Covers net setting setting_prefixes setting_read
