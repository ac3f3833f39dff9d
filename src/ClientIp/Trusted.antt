-- ===== src/ClientIp/Trusted.antt =====
-- The list of trusted proxies: what is read of a setting (`parseTrustedProxyPrefixes` of
-- internal/app/clientip.go).
use sub_manager.Base.{
  ◌≡◌, refl, Bool, true, false, ◌⊎◌, inl, inr, some, List, [], ◌∷◌, ◌++◌, Text, is_empty,
  trim_space, exists, arith, if◌then◌else◌, Bool-cases, Option-cases,
}
use sub_manager.ClientIp.Netip.{Prefix, NetipText, prefix_eq, prefix_eq_iff}
use sub_manager.ClientIp.Parse.{
  parse_trusted_proxy_prefix, collect_prefixes, parse_trusted_proxy_prefixes, fields,
}

-- No prefix stands twice in the list.
abbrev pub Distinct : List Prefix → Type 0
Distinct [] = Unit
Distinct (p ∷ ps) = (exists (prefix_eq p) ps ≡ false) × Distinct ps

-- Every part that is not blank names a prefix of the list.
abbrev pub Covers : NetipText → List Text → List Prefix → Type 0
Covers net [] ps = Unit
Covers net (part ∷ parts) ps =
    ((is_empty (trim_space part) ≡ true)
      ⊎ ((p : Prefix) × (parse_trusted_proxy_prefix net (trim_space part) ≡ some p)
          × (exists (prefix_eq p) ps ≡ true)))
    × Covers net parts ps

exists-append {ℓ} :
    {A : Type ℓ} (f : A → Bool) (xs ys : List A)
    → exists f (xs ++ ys) ≡ (if exists f xs then true else exists f ys)
exists-append f [] ys = refl
exists-append f (x ∷ xs) ys = ground (arith, exists-append f xs ys)

Distinct-snoc :
    (ps : List Prefix) (p : Prefix)
    → Distinct ps
    → exists (prefix_eq p) ps ≡ false
    → Distinct (ps ++ p ∷ [])
Distinct-snoc [] p d h = (refl, tt)
Distinct-snoc (q ∷ ps) p d h = ground (
  arith,
  Distinct-snoc ps p,
  exists-append (prefix_eq q) ps (p ∷ []),
  prefix_eq_iff p q,
  prefix_eq_iff q p,
)

abbrev with_prefix : List Prefix → Prefix → List Prefix
with_prefix acc p = if exists (prefix_eq p) acc then acc else acc ++ p ∷ []

with_prefix_keeps :
    (acc : List Prefix) (p q : Prefix)
    → exists (prefix_eq q) acc ≡ true
    → exists (prefix_eq q) (with_prefix acc p) ≡ true
with_prefix_keeps acc p q h = ground (arith, exists-append (prefix_eq q) acc (p ∷ []))

with_prefix_self :
    (acc : List Prefix) (p : Prefix) → exists (prefix_eq p) (with_prefix acc p) ≡ true
with_prefix_self acc p = ground (arith, exists-append (prefix_eq p) acc (p ∷ []), prefix_eq_iff p p)

with_prefix-Distinct :
    (acc : List Prefix) (p : Prefix) → Distinct acc → Distinct (with_prefix acc p)
with_prefix-Distinct acc p d = elim (Bool-cases (exists (prefix_eq p) acc)) [
  | inl old ↦ rw old d
  | inr new ↦ rw new (Distinct-snoc acc p d new)
]

module _ (net : NetipText) where
  -- What one round of the loop did, if the loop succeeded.
  collect_step :
      (part : Text) (parts : List Text) (acc ps : List Prefix)
      → collect_prefixes net (part ∷ parts) acc ≡ some ps
      → ((is_empty (trim_space part) ≡ true) × (collect_prefixes net parts acc ≡ some ps))
        ⊎ ((p : Prefix) × (parse_trusted_proxy_prefix net (trim_space part) ≡ some p)
            × (collect_prefixes net parts (with_prefix acc p) ≡ some ps))
  unfolding collect_prefixes
  collect_step part parts acc ps e = elim (Bool-cases (is_empty (trim_space part))) [
    | inl blank ↦ inl (blank, rw blank at e)
    | inr named ↦ elim (Option-cases (parse_trusted_proxy_prefix net (trim_space part))) [
      | inl bad ↦ absurd (ground arith)
      | inr (p, good) ↦ inr (p, good, rw (named, good) at e)
    ]
  ]

  collect_keeps :
      (parts : List Text) (acc ps : List Prefix) (q : Prefix)
      → collect_prefixes net parts acc ≡ some ps
      → exists (prefix_eq q) acc ≡ true
      → exists (prefix_eq q) ps ≡ true
  collect_keeps [] acc ps q e h = unfold collect_prefixes in ground arith
  collect_keeps (part ∷ parts) acc ps q e h = elim (collect_step part parts acc ps e) [
    | inl (blank, rest) ↦ collect_keeps parts acc ps q rest h
    | inr (p, good, rest) ↦
        collect_keeps parts (with_prefix acc p) ps q rest (with_prefix_keeps acc p q h)
  ]

  collect-Covers :
      (parts : List Text) (acc ps : List Prefix)
      → collect_prefixes net parts acc ≡ some ps
      → Distinct acc
      → Distinct ps × Covers net parts ps
  collect-Covers [] acc ps e d = unfold collect_prefixes in ground arith
  collect-Covers (part ∷ parts) acc ps e d = elim (collect_step part parts acc ps e) [
    | inl (blank, rest) ↦ let (c, k) = collect-Covers parts acc ps rest d in (c, (inl blank, k))
    | inr (p, good, rest) ↦
        let (c, k) =
          collect-Covers parts (with_prefix acc p) ps rest (with_prefix-Distinct acc p d) in
        (
          c,
          (
            inr (
              p,
              good,
              collect_keeps parts (with_prefix acc p) ps p rest (with_prefix_self acc p),
            ),
            k,
          ),
        )
  ]

  -- A setting that parses gives a list in which no prefix stands twice, and in which the prefix of
  -- every part that is not blank stands.
  pub parse_trusted-Covers :
      (value : Text) (ps : List Prefix)
      → parse_trusted_proxy_prefixes net value ≡ some ps
      → Distinct ps × Covers net (fields value) ps
  unfolding parse_trusted_proxy_prefixes
  parse_trusted-Covers value ps e = collect-Covers (fields value) [] ps e tt
