-- ===== src/ClientIp/Netip.antt =====
-- What internal/app/clientip.go uses of package `net/netip`. An IPv6 address keeps its zone. The
-- functions that read and print addresses are passed as a record: nothing here depends on how.
use sub_manager.Base.{
  ◌&&◌, ◌≡◌, ◌↔◌, text_eq_iff, arith, ℕ, ◌-◌, ◌*◌, ◌/◌, ◌%◌, ◌^◌, ltb, ◌==◌, Bool, true, false,
  Option, [], Text, text_eq, is_empty, if◌then◌else◌,
}

pub data Addr : Type 0 where
  invalid : Addr
  ip4 : ℕ → Addr
  ip6 : ℕ → Text → Addr

pub record Prefix : Type 0 where
  pub addr : Addr
  pub bits : ℕ

pub record NetipText : Type 0 where
  pub parse_addr : Text → Option Addr
  pub parse_prefix : Text → Option Prefix
  -- the address of `ParseAddrPort`
  pub parse_addr_port : Text → Option Addr
  pub addr_string : Addr → Text
  pub prefix_string : Prefix → Text

unfoldable pub is_valid : Addr → Bool
is_valid invalid = false
is_valid (ip4 n) = true
is_valid (ip6 n z) = true

unfoldable pub zone : Addr → Text
zone invalid = []
zone (ip4 n) = []
zone (ip6 n z) = z

unfoldable pub with_zone : Text → Addr → Addr
with_zone w invalid = invalid
with_zone w (ip4 n) = ip4 n
with_zone w (ip6 n z) = ip6 n w

-- An IPv4-mapped address lies in ::ffff:0:0/96.
unfoldable pub is_4in6 : Addr → Bool
is_4in6 invalid = false
is_4in6 (ip4 n) = false
is_4in6 (ip6 n z) = n / 2 ^ 32 == 0xffff

unfoldable pub unmap : Addr → Addr
unmap invalid = invalid
unmap (ip4 n) = ip4 n
unmap (ip6 n z) = if n / 2 ^ 32 == 0xffff then ip4 (n % 2 ^ 32) else ip6 n z

unfoldable pub bit_len : Addr → ℕ
bit_len invalid = 0
bit_len (ip4 n) = 32
bit_len (ip6 n z) = 128

abbrev pub drop_bits : ℕ → ℕ → ℕ → ℕ
drop_bits width bits n = n / 2 ^ (width - bits)

-- Whether `ip` has no zone, is of the same family, and has the same `b` leading bits.
unfoldable pub addr_contains : Addr → ℕ → Addr → Bool
addr_contains invalid b ip = false
addr_contains (ip4 m) b invalid = false
addr_contains (ip4 m) b (ip4 n) = if ltb 32 b then false else drop_bits 32 b m == drop_bits 32 b n
addr_contains (ip4 m) b (ip6 n z) = false
addr_contains (ip6 m w) b invalid = false
addr_contains (ip6 m w) b (ip4 n) = false
addr_contains (ip6 m w) b (ip6 n z) =
    if ltb 128 b then false else is_empty z && drop_bits 128 b m == drop_bits 128 b n

-- `p.Contains(ip)`
unfoldable pub prefix_contains : Prefix → Addr → Bool
unfolding addr_contains
prefix_contains p ip = addr_contains p.addr p.bits ip

unfoldable pub mask_addr : Addr → ℕ → Prefix
mask_addr invalid b = record { addr = invalid; bits = 0 }
mask_addr (ip4 n) b = record { addr = ip4 (drop_bits 32 b n * 2 ^ (32 - b)); bits = b }
mask_addr (ip6 n z) b = record { addr = ip6 (drop_bits 128 b n * 2 ^ (128 - b)) []; bits = b }

-- `p.Masked()`
unfoldable pub masked : Prefix → Prefix
unfolding mask_addr
masked p = mask_addr p.addr p.bits

-- `==` on addresses and prefixes.
unfoldable pub addr_eq : Addr → Addr → Bool
addr_eq invalid invalid = true
addr_eq (ip4 m) (ip4 n) = m == n
addr_eq (ip6 m w) (ip6 n z) = m == n && text_eq w z
addr_eq _ _ = false

pub addr_eq_iff : (a b : Addr) → (addr_eq a b ≡ true) ↔ (a ≡ b)
unfolding addr_eq
addr_eq_iff invalid invalid = ground arith
addr_eq_iff (ip4 m) (ip4 n) = ground arith
addr_eq_iff (ip6 m w) (ip6 n z) = ground (arith, text_eq_iff w z)
addr_eq_iff _ _ = ground arith

unfoldable pub prefix_eq : Prefix → Prefix → Bool
prefix_eq p q = addr_eq p.addr q.addr && p.bits == q.bits

pub prefix_eq_iff : (p q : Prefix) → (prefix_eq p q ≡ true) ↔ (p ≡ q)
unfolding prefix_eq
prefix_eq_iff p q = ground (arith, addr_eq_iff p.addr q.addr)
