-- ===== src/ClientIp/Parse.antt =====
-- The parsing functions of internal/app/clientip.go, over the functions of `net/netip`.
use sub_manager.Base.{
  trim_prefix_char, trim_suffix_char, ℕ, ◌-◌, ltb, ◌==◌, Bool, true, false, not, ◌||◌, Option, none,
  some, List, [], ◌∷◌, ◌++◌, reverse, Text, codes, text_eq, is_empty, trim_space, contains, exists,
  if◌then◌else◌,
}
use sub_manager.ClientIp.Netip.{
  prefix_eq, Addr, Prefix, NetipText, zone, with_zone, is_4in6, unmap, bit_len, masked,
}

-- A header is the list of its fields, each under its canonical name.
abbrev pub Header : Type 0
Header = List (Text × Text)

-- `header.Values(name)`
unfoldable pub header_values : Text → Header → List Text
header_values name [] = []
header_values name ((k, v) ∷ h) =
    let rest = header_values name h in if text_eq k name then v ∷ rest else rest

abbrev pub cons_head : ℕ → List Text → List Text
cons_head c [] = (c ∷ []) ∷ []
cons_head c (w ∷ ws) = (c ∷ w) ∷ ws

-- `strings.Split(s, ",")`: one part more than there are commas.
unfoldable pub split_commas : Text → List Text
split_commas [] = [] ∷ []
split_commas (c ∷ s) =
    let rest = split_commas s in if c == b',' then [] ∷ rest else cons_head c rest

-- `strings.Join(values, ",")`
unfoldable pub join_commas : List Text → Text
join_commas [] = []
join_commas (v ∷ []) = v
join_commas (v ∷ w ∷ vs) = v ++ b',' ∷ join_commas (w ∷ vs)

abbrev pub is_separator : ℕ → Bool
is_separator c = c == b',' || c == 10 || c == 13 || c == 32 || c == 9

-- `strings.FieldsFunc`, with the field that is being read.
unfoldable pub fields_from : Text → Text → List Text
fields_from word [] = if is_empty word then [] else reverse word ∷ []
fields_from word (c ∷ s) =
    let skip = fields_from [] s in
    let more = fields_from (c ∷ word) s in
    if is_separator c then (if is_empty word then skip else reverse word ∷ skip) else more

unfoldable pub fields : Text → List Text
unfolding fields_from
fields s = fields_from [] s

unfoldable pub normalize_ip_addr : Addr → Addr
normalize_ip_addr a = unmap (with_zone [] a)

-- An IPv4-mapped prefix shorter than 96 bits is ambiguous; a longer one is taken over to IPv4.
unfoldable pub canonical_prefix : Prefix → Option Prefix
canonical_prefix p =
    if is_4in6 p.addr
    then (if ltb p.bits 96
        then none
        else some (masked (record { addr = unmap p.addr; bits = p.bits - 96 })))
    else some (masked p)

abbrev host_prefix : Option Addr → Option Prefix
host_prefix none = none
host_prefix (some a) = let b = normalize_ip_addr a in some (record { addr = b; bits = bit_len b })

abbrev cidr_prefix : Option Prefix → Option Prefix
cidr_prefix none = none
cidr_prefix (some p) = canonical_prefix p

abbrev normalized : Option Addr → Option Addr
normalized none = none
normalized (some a) = some (normalize_ip_addr a)

-- The loop of `parseTrustedProxyPrefixes`, with the prefixes so far: those are the ones in `seen`.
abbrev pub push_prefix : List Prefix → Option Prefix → Option (List Prefix)
push_prefix acc none = none
push_prefix acc (some p) = some (if exists (prefix_eq p) acc then acc else acc ++ p ∷ [])

abbrev pub join_chain : Option Addr → Option (List Addr) → Option (List Addr)
join_chain none rest = none
join_chain (some a) none = none
join_chain (some a) (some chain) = some (a ∷ chain)

-- No zone is accepted in a forwarded address.
abbrev forwarded_addr : Option Addr → Option Addr
forwarded_addr none = none
forwarded_addr (some a) = if is_empty (zone a) then some (normalize_ip_addr a) else none

abbrev pub no_values : List Text → Bool
no_values [] = true
no_values (v ∷ vs) = false

abbrev pub forwarded_for_name : Text
forwarded_for_name = codes "X-Forwarded-For"

abbrev pub real_ip_name : Text
real_ip_name = codes "X-Real-Ip"

module _ (net : NetipText) where
  unfoldable pub parse_trusted_proxy_prefix : Text → Option Prefix
  parse_trusted_proxy_prefix value =
      if not (contains value (b'/' ∷ []))
      then host_prefix (net.parse_addr value)
      else cidr_prefix (net.parse_prefix value)

  unfoldable pub collect_prefixes : List Text → List Prefix → Option (List Prefix)
  collect_prefixes [] acc = some acc
  collect_prefixes (part ∷ parts) acc =
      let value = trim_space part in
      if is_empty value
      then collect_prefixes parts acc
      else elim (push_prefix acc (parse_trusted_proxy_prefix value)) [
        | none ↦ none
        | some acc' ↦ collect_prefixes parts acc'
      ]

  unfoldable pub parse_trusted_proxy_prefixes : Text → Option (List Prefix)
  parse_trusted_proxy_prefixes value = collect_prefixes (fields value) []

  unfoldable pub parse_remote_ip : Text → Option Addr
  parse_remote_ip value =
      let v = trim_space value in
      elim (net.parse_addr_port v) [
        | some a ↦ some (normalize_ip_addr a)
        | none ↦ normalized (net.parse_addr (trim_prefix_char b'[' (trim_suffix_char b']' v)))
      ]

  unfoldable pub parse_forwarded_ip : Text → Option Addr
  parse_forwarded_ip value =
      let v = trim_space value in if is_empty v then none else forwarded_addr (net.parse_addr v)

  -- The loop over the parts of X-Forwarded-For.
  unfoldable pub parse_chain : List Text → Option (List Addr)
  parse_chain [] = some []
  parse_chain (part ∷ parts) = join_chain (parse_forwarded_ip part) (parse_chain parts)

  -- The chain, whether the header is present, and whether it is valid.
  unfoldable pub parse_forwarded_for : Header → List Addr × Bool × Bool
  parse_forwarded_for header =
      let values = header_values forwarded_for_name header in
      let raw = join_commas values in
      if no_values values
      then ([], false, true)
      else if is_empty (trim_space raw)
      then ([], true, false)
      else elim (parse_chain (split_commas raw)) [
        | none ↦ ([], true, false)
        | some chain ↦ (chain, true, true)
      ]

  abbrev single_value : List Text → Option Addr
  single_value [] = none
  single_value (v ∷ []) = if contains v (b',' ∷ []) then none else parse_forwarded_ip v
  single_value (v ∷ w ∷ vs) = none

  unfoldable pub parse_real_ip : Header → Option Addr
  parse_real_ip header = single_value (header_values real_ip_name header)
