-- ===== src/ClientIp/Mapped.antt =====
-- IPv4 addresses and prefixes in their IPv4-mapped form (`normalizeIPAddr`, `isTrusted` and
-- `parseTrustedProxyPrefix` of internal/app/clientip.go).
use native.Mathlib.Nat.{pow-zero, pow-suc, add-zero, add-suc, add-mul-div_right, mul-div_cancel}
use sub_manager.Base.{
  zero, suc, ℕ, ◌+◌, ◌-◌, ◌*◌, ◌/◌, ◌^◌, ◌<◌, ◌≤◌, ◌≡◌, ◌∙◌, ap, refl, Bool, some, [], ◌∷◌, Text,
  arith,
}
use sub_manager.ClientIp.Netip.{
  Addr, ip4, ip6, Prefix, prefix_contains, addr_contains, masked, mask_addr, is_4in6, unmap,
  with_zone, is_valid,
}
use sub_manager.ClientIp.Parse.{normalize_ip_addr, canonical_prefix}
use sub_manager.ClientIp.Resolver.{ClientIpResolver, is_trusted}

-- An IPv4 address, and the same one in its IPv4-mapped form.
abbrev pub mapped : ℕ → ℕ
mapped n = 0xffff * 2 ^ 32 + n

-- An address written in its IPv4-mapped form is the IPv4 address, whatever its zone.
pub normalize-mapped :
    (n : ℕ) (z : Text) → n < 2 ^ 32 → normalize_ip_addr (ip6 (mapped n) z) ≡ ip4 n
unfolding normalize_ip_addr unmap with_zone
normalize-mapped n z h = ground arith

-- Normalizing an address twice is normalizing it once.
pub normalize_idem : (a : Addr) → normalize_ip_addr (normalize_ip_addr a) ≡ normalize_ip_addr a
unfolding normalize_ip_addr unmap with_zone
normalize_idem a = ground arith

-- An address is trusted or not whether it is written as IPv4 or in its IPv4-mapped form, with a zone
-- or without.
pub is_trusted-mapped :
    (r : ClientIpResolver) (n : ℕ) (z : Text)
    → n < 2 ^ 32
    → is_trusted r (ip6 (mapped n) z) ≡ is_trusted r (ip4 n)
unfolding is_trusted is_valid
is_trusted-mapped r n z h =
    rw (normalize-mapped n z h) (unfold normalize_ip_addr unmap with_zone in refl)

two_pow_pos : (k : ℕ) → 0 < 2 ^ k
two_pow_pos zero = omega arith
two_pow_pos (suc k) = rw (pow-suc 2 k) (omega (arith, two_pow_pos k))

-- Clearing the bits behind a prefix does not change what it covers.
pub contains-masked : (p : Prefix) (a : Addr) → prefix_contains (masked p) a ≡ prefix_contains p a
unfolding prefix_contains masked
contains-masked p a = contains-mask_addr p.addr p.bits a
  where
    contains-mask_addr :
        (m : Addr) (b : ℕ) (a : Addr)
        → addr_contains (mask_addr m b).addr (mask_addr m b).bits a ≡ addr_contains m b a
    contains-mask_addr Addr.invalid b a = refl
    contains-mask_addr (ip4 m) b (ip4 n) = rw (mul-div_cancel _ (two_pow_pos (32 - b)))
    contains-mask_addr (ip4 m) b _ = refl
    contains-mask_addr (ip6 m w) b (ip6 n z) = rw (mul-div_cancel _ (two_pow_pos (128 - b)))
    contains-mask_addr (ip6 m w) b _ = refl

pow-add : (a m n : ℕ) → a ^ (m + n) ≡ a ^ m * a ^ n
pow-add a m zero = rw (add-zero m) (grind (arith, pow-zero a))
pow-add a m (suc n) =
    rw (pow-suc a n)
      (ap (λ e. a ^ e) (add-suc m n) ∙ pow-suc a (m + n) ∙ grind (arith, pow-add a m n))

-- The leading bits of a mapped address are the mark and those of the IPv4 address.
mapped-div : (n k : ℕ) → k ≤ 32 → mapped n / 2 ^ k ≡ 0xffff * 2 ^ (32 - k) + n / 2 ^ k
mapped-div n k h =
    let split : 2 ^ 32 ≡ 2 ^ (32 - k) * 2 ^ k =
      ap (λ e. 2 ^ e) {x = 32} {y = 32 - k + k} (omega arith) ∙ pow-add 2 (32 - k) k in
    let shifted : mapped n ≡ n + (0xffff * 2 ^ (32 - k)) * 2 ^ k = grind (arith, split) in
    rw (shifted, add-mul-div_right n (0xffff * 2 ^ (32 - k)) (two_pow_pos k)) (omega arith)

-- An IPv4 address has the leading bits of another exactly if the mapped one has.
contains-mapped :
    (n m b : ℕ) (z : Text)
    → 96 ≤ b
    → b ≤ 128
    → addr_contains (ip4 n) (b - 96) (ip4 m)
      ≡ addr_contains (ip6 (mapped n) z) b (ip6 (mapped m) [])
unfolding addr_contains
contains-mapped n m b z low high =
    let bits : 32 - (b - 96) ≡ 128 - b = omega arith in
    ground (
      arith,
      bits,
      ap (λ k. n / 2 ^ k) bits,
      ap (λ k. m / 2 ^ k) bits,
      mapped-div n (128 - b) (omega arith),
      mapped-div m (128 - b) (omega arith),
    )

-- A CIDR in IPv4-mapped form, of 96 bits at least, gives a prefix. A resolver with this one prefix
-- trusts an IPv4-mapped address, in whatever zone, exactly if the CIDR as it was written covers it.
pub canonical-mapped :
    (n b m : ℕ) (z w : Text) (trust_all : Bool)
    → n < 2 ^ 32
    → m < 2 ^ 32
    → 96 ≤ b
    → b ≤ 128
    → let written : Prefix = record { addr = ip6 (mapped n) z; bits = b } in
      (q : Prefix) × (canonical_prefix written ≡ some q)
      × (is_trusted
            (record { environment = []; configured = q ∷ []; trust_all_default = trust_all })
            (ip6 (mapped m) w)
          ≡ prefix_contains written (ip6 (mapped m) []))
unfolding canonical_prefix is_4in6 unmap is_trusted is_valid prefix_contains
canonical-mapped n b m z w trust_all small_n small_m low high =
    let p : Prefix = record { addr = ip4 n; bits = b - 96 } in
    (
      masked p,
      ground arith,
      rw (normalize-mapped m w small_m)
          (ground (arith, contains-masked p (ip4 m), contains-mapped n m b z low high)),
    )
