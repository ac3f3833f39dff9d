-- ===== src/ClientIp/Spoofing.antt =====
-- What a client can and cannot make of its own address by the headers that it sends.
use mathlib.Core.List.{reverse-append}
use sub_manager.Base.{
  is_space, ℕ, ◌≡◌, ◌≢◌, refl, Bool, true, false, not, Option, none, some, List, [], ◌∷◌, ◌++◌,
  reverse, Text, find, exists, arith, if◌then◌else◌,
}
use sub_manager.Base.Trim.{trim_space_keeps}
use sub_manager.ClientIp.Netip.{Addr, NetipText}
use sub_manager.ClientIp.Parse.{
  Header, header_values, split_commas, join_commas, parse_chain, parse_remote_ip,
  parse_forwarded_for, forwarded_for_name, cons_head, no_values,
}
use sub_manager.ClientIp.Resolver.{
  ClientIpResolver, is_trusted, is_trusted_peer, last_untrusted, resolve,
}

cons_head-ne-nil : (c : ℕ) (ws : List Text) → cons_head c ws ≢ []
cons_head-ne-nil c [] = ground arith
cons_head-ne-nil c (w ∷ ws) = ground arith

split_commas-ne-nil : (p : Text) → split_commas p ≢ []
unfolding split_commas
split_commas-ne-nil [] = ground arith
split_commas-ne-nil (c ∷ p) = ground (arith, cons_head-ne-nil c (split_commas p))

split_commas-append : (p q : Text) → split_commas (p ++ b',' ∷ q) ≡ split_commas p ++ split_commas q
unfolding split_commas
split_commas-append [] q = refl
split_commas-append (c ∷ p) q = ground (arith, split_commas-append p q, split_commas-ne-nil p)

append_chain : Option (List Addr) → Option (List Addr) → Option (List Addr)
append_chain none ys = none
append_chain (some xs) none = none
append_chain (some xs) (some ys) = some (xs ++ ys)

module _ (net : NetipText) where
  parse_chain-append :
      (xs ys : List Text)
      → parse_chain net (xs ++ ys) ≡ append_chain (parse_chain net xs) (parse_chain net ys)
  unfolding parse_chain append_chain
  parse_chain-append [] ys = ground arith
  parse_chain-append (x ∷ xs) ys = ground (arith, parse_chain-append xs ys)

  -- A peer that is not trusted is known by the address of its connection, whatever headers it
  -- sends.
  pub resolve_untrusted_peer :
      (r : ClientIpResolver) (remote_addr : Text) (header : Header) (a : Addr)
      → parse_remote_ip net remote_addr ≡ some a
      → is_trusted_peer r a ≡ false
      → resolve net r remote_addr header
        ≡ record { client_ip = net.addr_string a; remote_ip = a; from_trusted_proxy = false }
  unfolding resolve
  resolve_untrusted_peer r remote_addr header a e u = ground arith

find-append {ℓ} :
    {A : Type ℓ} (p : A → Bool) (xs ys : List A)
    → find p (xs ++ ys) ≡ (if exists p xs then find p xs else find p ys)
find-append p [] ys = refl
find-append p (x ∷ xs) ys = ground (arith, find-append p xs ys)

exists-find {ℓ} :
    {A : Type ℓ} (p : A → Bool) (xs : List A) (a : A) → find p xs ≡ some a → exists p xs ≡ true
exists-find p [] a h = cc
exists-find p (x ∷ xs) a h = ground (arith, exists-find p xs a)

-- What stands to the left of an untrusted address in the chain does not matter.
last_untrusted-append :
    (r : ClientIpResolver) (xs ys : List Addr) (a : Addr)
    → last_untrusted r ys ≡ some a
    → last_untrusted r (xs ++ ys) ≡ some a
unfolding last_untrusted
last_untrusted-append r xs ys a h = rw (reverse-append xs ys) (
    ground (
      arith,
      find-append (λ b. not (is_trusted r b)) (reverse ys) (reverse xs),
      exists-find (λ b. not (is_trusted r b)) (reverse ys) a h,
    ))

abbrev pub accepted : Option (List Addr) → Bool
accepted none = false
accepted (some chain) = true

no_values_join : (values : List Text) → join_commas values ≢ [] → no_values values ≡ false
unfolding join_commas
no_values_join [] h = absurd (h refl)
no_values_join (v ∷ vs) h = refl

nonempty_join : (p q : Text) → p ++ b',' ∷ q ≢ []
nonempty_join [] q = ground arith
nonempty_join (c ∷ p) q = ground arith

module _ (net : NetipText) (header : Header) (p q : Text) where
  -- The header fields joined read `p,q`.
  abbrev pub Reads : Type 0
  Reads = join_commas (header_values forwarded_for_name header) ≡ p ++ b',' ∷ q

  parse_forwarded_for_split :
      (qs : List Addr)
      → Reads
      → parse_chain net (split_commas q) ≡ some qs
      → parse_forwarded_for net header ≡ elim (parse_chain net (split_commas p)) [
        | none ↦ ([], true, false)
        | some ps ↦ (ps ++ qs, true, true)
      ]
  unfolding parse_forwarded_for append_chain is_space
  parse_forwarded_for_split qs e chain = ground (
    arith,
    no_values_join (header_values forwarded_for_name header),
    nonempty_join p q,
    trim_space_keeps p b',' q refl,
    split_commas-append p q,
    parse_chain-append net (split_commas p) (split_commas q),
  )

  last_forwarded :
      (r : ClientIpResolver) (ps : Option (List Addr)) (qs : List Addr) (c : Addr)
      → last_untrusted r qs ≡ some c
      → last_untrusted r (elim ps [ none ↦ qs | some xs ↦ xs ++ qs ]) ≡ some c
  last_forwarded r none qs c h = h
  last_forwarded r (some xs) qs c h = last_untrusted-append r xs qs c h

  -- A trusted proxy appends `,q` to what the client sent in X-Forwarded-For, `p`. If `q` names an
  -- address that is not trusted, the last such one is the client's, or, where `p` is no list of
  -- addresses, the proxy's own address is: no other address can be feigned.
  pub resolve_forwarded :
      (r : ClientIpResolver) (remote_addr : Text) (a c : Addr) (qs : List Addr)
      → Reads
      → parse_remote_ip net remote_addr ≡ some a
      → is_trusted_peer r a ≡ true
      → parse_chain net (split_commas q) ≡ some qs
      → last_untrusted r qs ≡ some c
      → (resolve net r remote_addr header).client_ip
        ≡ net.addr_string (if accepted (parse_chain net (split_commas p)) then c else a)
  unfolding resolve
  resolve_forwarded r remote_addr a c qs e peer trusted chain found = ground (
    arith,
    parse_forwarded_for_split qs e chain,
    last_forwarded r (parse_chain net (split_commas p)) qs c found,
  )
