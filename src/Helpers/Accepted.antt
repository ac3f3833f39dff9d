-- ===== src/Helpers/Accepted.antt =====
-- What the validation accepts is good to be stored.
use mathlib.Core.List.{reverse-append}
use sub_manager.Base.{
  ℕ, ◌+◌, ◌==◌, ◌≤◌, ◌≡◌, ◌∙◌, sym, ap, refl, Bool, true, false, not, ◌&&◌, ltb, none, [], ◌∷◌,
  ◌++◌, reverse, Text, exists, is_empty, is_space, byte_len, utf8_width, trim_left, trim_right,
  trim_space, arith, Bool-cases, inl, inr,
}
use sub_manager.Base.Trim.{trim_space_keeps}
use sub_manager.Helpers.{
  matches_path_pattern, is_reserved, replace_crlf, replace_cr, normalize_content, max_content,
  validate_subscription_metadata, validate_content, validate_subscription,
}
use sub_manager.Helpers.Normal.{normalize_content_idem}

-- The path has the form of one, and does not belong to the program.
abbrev pub GoodPath : Text → Type 0
GoodPath path = (matches_path_pattern path ≡ true) × (is_reserved path ≡ false)

-- The content is in normal form, not empty, and within the limit.
abbrev pub GoodContent : Text → Type 0
GoodContent content =
    (normalize_content content ≡ content)
    × (is_empty content ≡ false)
    × (byte_len content ≤ max_content)

abbrev has_letter : Text → Bool
has_letter s = exists (λ c. not (is_space c)) s

-- A text that trimming does not empty has a character that is no space.
spaces_trimmed : (s : Text) → has_letter s ≡ false → trim_left is_space s ≡ []
unfolding trim_left
spaces_trimmed [] h = refl
spaces_trimmed (c ∷ s) h = ground (arith, spaces_trimmed s)

letter_of_trimmed : (s : Text) → is_empty (trim_space s) ≡ false → has_letter s ≡ true
unfolding trim_space trim_right
letter_of_trimmed s h = elim (Bool-cases (has_letter s)) [
  | inl letter ↦ letter
  | inr spaces ↦ absurd (ground (arith, rw (spaces_trimmed s spaces) at h))
]

split_letter :
    (s : Text)
    → has_letter s ≡ true
    → (u : Text) × (c : ℕ) × (t : Text) × (s ≡ u ++ c ∷ t) × (is_space c ≡ false)
split_letter [] h = absurd (ground arith)
split_letter (x ∷ s) h = elim (Bool-cases (is_space x)) [
  | inr letter ↦ ([], x, s, refl, letter)
  | inl space ↦
      let (u, c, t, e, k) = split_letter s (ground arith) in (x ∷ u, c, t, ap (λ l. x ∷ l) e, k)
]

trimmed_of_letter : (s : Text) → has_letter s ≡ true → is_empty (trim_space s) ≡ false
trimmed_of_letter s h = let (u, c, t, e, k) = split_letter s h in rw e (trim_space_keeps u c t k)

space_cr : is_space 13 ≡ true
unfolding is_space
space_cr = refl

space_lf : is_space 10 ≡ true
unfolding is_space
space_lf = refl

letter-skip :
    (c d : ℕ) (s : Text)
    → (c == 13) ≡ true
    → (d == 10) ≡ true
    → has_letter (c ∷ d ∷ s) ≡ has_letter s
letter-skip c d s e f =
    let ce : c ≡ 13 = ground arith in
    let de : d ≡ 10 = ground arith in rw (ce, de, space_cr, space_lf) refl

letter-replace_crlf : (s : Text) → has_letter s ≡ true → has_letter (replace_crlf s) ≡ true
unfolding replace_crlf
letter-replace_crlf [] h = h
letter-replace_crlf (c ∷ []) h = h
letter-replace_crlf (c ∷ d ∷ s) h = elim (Bool-cases (c == 13 && d == 10)) [
  | inl both ↦
      let rest : has_letter s ≡ true = sym (letter-skip c d s (ground arith) (ground arith)) ∙ h in
      rw (both, space_lf) (letter-replace_crlf s rest)
  | inr one ↦ rw one (letter-kept c (d ∷ s) (replace_crlf (d ∷ s)) (letter-replace_crlf (d ∷ s)) h)
]
  where
    letter-kept :
        (c : ℕ) (s t : Text)
        → (has_letter s ≡ true → has_letter t ≡ true)
        → has_letter (c ∷ s) ≡ true
        → has_letter (c ∷ t) ≡ true
    letter-kept c s t f h = ground (arith, f)

letter-replace_cr : (s : Text) → has_letter s ≡ true → has_letter (replace_cr s) ≡ true
unfolding replace_cr
letter-replace_cr [] h = h
letter-replace_cr (c ∷ s) h = elim (Bool-cases (c == 13)) [
  | inl cr ↦
      let ce : c ≡ 13 = ground arith in
      let rest : has_letter s ≡ true = rw (ce, space_cr) at h in
      rw (cr, space_lf) (letter-replace_cr s rest)
  | inr other ↦ rw other (ground (arith, letter-replace_cr s))
]

byte_len-append : (s t : Text) → byte_len (s ++ t) ≡ byte_len s + byte_len t
unfolding byte_len
byte_len-append [] t = omega arith
byte_len-append (c ∷ s) t = omega (arith, byte_len-append s t)

byte_len-reverse : (s : Text) → byte_len (reverse s) ≡ byte_len s
unfolding byte_len
byte_len-reverse [] = refl
byte_len-reverse (c ∷ s) =
    ap byte_len (reverse-append (c ∷ []) s)
    ∙ omega (arith, byte_len-append (reverse s) (c ∷ []), byte_len-reverse s)

byte_len-trim_left : (p : ℕ → Bool) (s : Text) → byte_len (trim_left p s) ≤ byte_len s
unfolding trim_left byte_len
byte_len-trim_left p [] = ground arith
byte_len-trim_left p (c ∷ s) = ground (arith, byte_len-trim_left p s)

byte_len-trim_space : (s : Text) → byte_len (trim_space s) ≤ byte_len s
unfolding trim_space trim_right
byte_len-trim_space s =
    let t = trim_left is_space s in
    omega (
      arith,
      byte_len-trim_left is_space s,
      byte_len-trim_left is_space (reverse t),
      byte_len-reverse t,
      byte_len-reverse (trim_left is_space (reverse t)),
    )

byte_len-replace_crlf : (s : Text) → byte_len (replace_crlf s) ≤ byte_len s
unfolding replace_crlf byte_len utf8_width
byte_len-replace_crlf [] = ground arith
byte_len-replace_crlf (c ∷ []) = ground arith
byte_len-replace_crlf (c ∷ d ∷ s) =
    ground (arith, byte_len-replace_crlf s, byte_len-replace_crlf (d ∷ s))

byte_len-replace_cr : (s : Text) → byte_len (replace_cr s) ≤ byte_len s
unfolding replace_cr byte_len utf8_width
byte_len-replace_cr [] = ground arith
byte_len-replace_cr (c ∷ s) = ground (arith, byte_len-replace_cr s)

byte_len-normalize_content : (s : Text) → byte_len (normalize_content s) ≤ byte_len s
unfolding normalize_content
byte_len-normalize_content s = omega (
  arith,
  byte_len-trim_space (replace_cr (replace_crlf s)),
  byte_len-replace_cr (replace_crlf s),
  byte_len-replace_crlf s,
)

-- Content that the validation accepts is good in its normal form.
content_accepted :
    (content : Text) → validate_content content ≡ none → GoodContent (normalize_content content)
unfolding validate_content
content_accepted content h =
    let full : is_empty (trim_space content) ≡ false = ground arith in
    let short : ltb max_content (byte_len content) ≡ false = ground arith in
    let letter = letter-replace_crlf content (letter_of_trimmed content full) in
    let left =
      trimmed_of_letter (replace_cr (replace_crlf content))
        (letter-replace_cr (replace_crlf content) letter) in
    (
      (normalize_content_idem content).1,
      unfold normalize_content in left,
      ground (arith, byte_len-normalize_content content),
    )

pub metadata_accepted :
    (name path : Text) → validate_subscription_metadata name path ≡ none → GoodPath path
unfolding validate_subscription_metadata
metadata_accepted name path h = ground arith

pub subscription_accepted :
    (name path content : Text)
    → validate_subscription name path content ≡ none
    → GoodPath path × GoodContent (normalize_content content)
unfolding validate_subscription
subscription_accepted name path content h =
    (metadata_accepted name path (ground arith), content_accepted content (ground arith))
