-- ===== src/Base/Trim.antt =====
-- Laws of `strings.TrimLeftFunc`, `TrimRightFunc` and `TrimSpace`.
use mathlib.Core.Path.{◌≡◌, refl, sym, ap, ◌∙◌}
use mathlib.Core.List.{[], ◌∷◌, ◌++◌, reverse, reverse-append, reverse-reverse, append_assoc}
use mathlib.Core.Bool.{Bool, true, false, not}
use mathlib.Core.Logic.{inl, inr}
use native.Mathlib.Omega.{arith}
use Prim.Native.Nat.{ℕ}
use sub_manager.Base.Lists.{exists}
use sub_manager.Base.Tests.{if◌then◌else◌, Bool-cases}
use sub_manager.Base.Texts.{Text, is_empty, is_space, trim_left, trim_right, trim_space}

-- The text does not begin with a character to be trimmed.
abbrev pub starts_ok : (ℕ → Bool) → Text → Bool
starts_ok p [] = true
starts_ok p (c ∷ s) = not (p c)

pub starts_ok-trim_left : (p : ℕ → Bool) (s : Text) → starts_ok p (trim_left p s) ≡ true
unfolding trim_left
starts_ok-trim_left p [] = refl
starts_ok-trim_left p (c ∷ s) = ground (arith, starts_ok-trim_left p s)

pub trim_left_id : (p : ℕ → Bool) (s : Text) → starts_ok p s ≡ true → trim_left p s ≡ s
unfolding trim_left
trim_left_id p [] h = refl
trim_left_id p (c ∷ s) h = ground arith

trim_left_suffix : (p : ℕ → Bool) (s : Text) → (u : Text) × (s ≡ u ++ trim_left p s)
unfolding trim_left
trim_left_suffix p [] = ([], refl)
trim_left_suffix p (c ∷ s) = suffix_step (p c) c s (trim_left p s) (trim_left_suffix p s)
  where
    suffix_step :
        (b : Bool) (c : ℕ) (s t : Text)
        → (u : Text) × (s ≡ u ++ t)
        → (u : Text) × (c ∷ s ≡ u ++ (if b then t else c ∷ s))
    suffix_step true c s t (u, e) = (c ∷ u, ap (λ l. c ∷ l) e)
    suffix_step false c s t h = ([], refl)

pub trim_right_prefix : (p : ℕ → Bool) (s : Text) → (u : Text) × (s ≡ trim_right p s ++ u)
unfolding trim_right
trim_right_prefix p s =
    let (u, e) = trim_left_suffix p (reverse s) in
    (reverse u, sym (reverse-reverse s) ∙ ap reverse e ∙ reverse-append u (trim_left p (reverse s)))

trim_right_idem : (p : ℕ → Bool) (s : Text) → trim_right p (trim_right p s) ≡ trim_right p s
unfolding trim_right
trim_right_idem p s =
    rw (reverse-reverse (trim_left p (reverse s)))
      (ap reverse (trim_left_id p _ (starts_ok-trim_left p (reverse s))))

starts_ok-prefix : (p : ℕ → Bool) (s u : Text) → starts_ok p (s ++ u) ≡ true → starts_ok p s ≡ true
starts_ok-prefix p [] u h = refl
starts_ok-prefix p (c ∷ s) u h = h

starts_ok-trim_right :
    (p : ℕ → Bool) (s : Text) → starts_ok p s ≡ true → starts_ok p (trim_right p s) ≡ true
starts_ok-trim_right p s h =
    let (u, e) = trim_right_prefix p s in starts_ok-prefix p (trim_right p s) u (rw e at h)

-- Trimming twice is trimming once.
pub trim_space_idem : (s : Text) → trim_space (trim_space s) ≡ trim_space s
unfolding trim_space
trim_space_idem s =
    let u = trim_left is_space s in
    rw
      (trim_left_id is_space (trim_right is_space u)
        (starts_ok-trim_right is_space u (starts_ok-trim_left is_space s)))
      (trim_right_idem is_space u)

-- What is left keeps a character that is no space.
trim_left_keeps :
    (p : ℕ → Bool) (s : Text) (c : ℕ) (t : Text)
    → p c ≡ false
    → (u : Text) × (trim_left p (s ++ c ∷ t) ≡ u ++ c ∷ t)
unfolding trim_left
trim_left_keeps p [] c t h = ([], ground arith)
trim_left_keeps p (x ∷ s) c t h = elim (Bool-cases (p x)) [
  | inl skip ↦ rw skip (trim_left_keeps p s c t h)
  | inr keep ↦ (x ∷ s, rw keep)
]

reverse_middle : (u : Text) (c : ℕ) (t : Text) → reverse (u ++ c ∷ t) ≡ reverse t ++ c ∷ reverse u
reverse_middle u c t =
    reverse-append u (c ∷ t)
    ∙ ap (λ l. l ++ reverse u) (reverse-append (c ∷ []) t)
    ∙ append_assoc (reverse t) (c ∷ []) (reverse u)

nonempty_middle : (u : Text) (c : ℕ) (t : Text) → is_empty (u ++ c ∷ t) ≡ false
nonempty_middle [] c t = refl
nonempty_middle (x ∷ u) c t = refl

pub trim_space_keeps :
    (s : Text) (c : ℕ) (t : Text) → is_space c ≡ false → is_empty (trim_space (s ++ c ∷ t)) ≡ false
unfolding trim_space trim_right
trim_space_keeps s c t h =
    let (u, e) = trim_left_keeps is_space s c t h in
    let (v, f) = trim_left_keeps is_space (reverse t) c (reverse u) h in
    rw (e, reverse_middle u c t, f, reverse_middle v c (reverse u))
      (nonempty_middle (reverse (reverse u)) c (reverse v))

-- A character that a text lacks is lacked by what is left of it.
module _ (q : ℕ → Bool) where
  lacks-append : (s t : Text) → exists q s ≡ false → exists q t ≡ false → exists q (s ++ t) ≡ false
  lacks-append [] t h k = k
  lacks-append (c ∷ s) t h k = ground (arith, lacks-append s t)

  lacks-reverse : (s : Text) → exists q s ≡ false → exists q (reverse s) ≡ false
  lacks-reverse [] h = refl
  lacks-reverse (c ∷ s) h =
      ap (exists q) (reverse-append (c ∷ []) s)
      ∙ lacks-append (reverse s) (c ∷ []) (lacks-reverse s (ground arith)) (ground arith)

  lacks-trim_left :
      (p : ℕ → Bool) (s : Text) → exists q s ≡ false → exists q (trim_left p s) ≡ false
  unfolding trim_left
  lacks-trim_left p [] h = refl
  lacks-trim_left p (c ∷ s) h = ground (arith, lacks-trim_left p s)

  pub lacks-trim_space : (s : Text) → exists q s ≡ false → exists q (trim_space s) ≡ false
  unfolding trim_space trim_right
  lacks-trim_space s h =
      let t = trim_left is_space s in
      let back : exists q (reverse t) ≡ false = lacks-reverse t (lacks-trim_left is_space s h) in
      lacks-reverse (trim_left is_space (reverse t)) (lacks-trim_left is_space (reverse t) back)
