-- ===== src/Base/Search.antt =====
-- What a search in a table finds: after rows were appended or deleted, and by a key.
use mathlib.Core.Option.{some-injective}
use sub_manager.Base.Rows.{Fresh, Unique}
use mathlib.Core.Path.{◌≡◌, refl, sym, subst}
use mathlib.Core.Logic.{◌≢◌, inl, inr}
use mathlib.Core.List.{List, [], ◌∷◌, ◌++◌}
use mathlib.Core.Bool.{Bool, true, false}
use mathlib.Core.Option.{none, some}
use native.Mathlib.Omega.{arith}
use sub_manager.Base.Tests.{if◌then◌else◌, Bool-cases}
use sub_manager.Base.Lists.{exists, find, delete_where}

pub find-snoc {ℓ} :
    {A : Type ℓ} (p : A → Bool) (xs : List A) (x : A)
    → find p (xs ++ x ∷ []) ≡ (if exists p xs then find p xs else if p x then some x else none)
find-snoc p [] x = ground arith
find-snoc p (y ∷ xs) x = ground (arith, find-snoc p xs x)

pub find-delete {ℓ} :
    {A : Type ℓ} (p q : A → Bool) (xs : List A)
    → ((x : A) → q x ≡ true → p x ≡ false)
    → find p (delete_where q xs) ≡ find p xs
find-delete p q [] g = refl
find-delete p q (x ∷ xs) g = ground (arith, g x, find-delete p q xs g)

pub find-delete_all {ℓ} :
    {A : Type ℓ} (p q : A → Bool) (xs : List A)
    → ((x : A) → p x ≡ true → q x ≡ true)
    → find p (delete_where q xs) ≡ none
find-delete_all p q [] g = refl
find-delete_all p q (x ∷ xs) g = ground (arith, g x, find-delete_all p q xs g)

pub find_of_not_exists {ℓ} :
    {A : Type ℓ} (p : A → Bool) (xs : List A) → exists p xs ≡ false → find p xs ≡ none
find_of_not_exists p [] h = refl
find_of_not_exists p (x ∷ xs) h = ground (arith, find_of_not_exists p xs)

pub find_none {ℓ} :
    {A : Type ℓ} (p q : A → Bool) (xs : List A)
    → ((x : A) → p x ≡ true → q x ≡ true)
    → exists q xs ≡ false
    → exists p xs ≡ false
find_none p q [] g h = refl
find_none p q (x ∷ xs) g h = ground (arith, g x, find_none p q xs g)

pub not_exists_of_find {ℓ} :
    {A : Type ℓ} (p : A → Bool) (xs : List A) → find p xs ≡ none → exists p xs ≡ false
not_exists_of_find p [] h = refl
not_exists_of_find p (x ∷ xs) h = ground (arith, not_exists_of_find p xs)

-- A row that a search finds is also what a search by its key finds, where no two rows share a key.
module _ {ℓ κ} {A : Type ℓ} {K : Type κ} (key : A → K) (test by_key : A → Bool) (x : A)
    (self : by_key x ≡ true) (only : (y : A) → by_key y ≡ true → key y ≡ key x) where
  Fresh-find : (k : K) (xs : List A) → Fresh key k xs → find test xs ≡ some x → key x ≢ k
  Fresh-find k [] f e = absurd (ground arith)
  Fresh-find k (y ∷ xs) f e = elim (Bool-cases (test y)) [
    | inl hit ↦
        let same : y ≡ x = some-injective y x (rw hit at e) in subst (λ z. key z ≢ k) same f.0
    | inr miss ↦ Fresh-find k xs f.1 (rw miss at e)
  ]

  pub find-Unique : (xs : List A) → Unique key xs → find test xs ≡ some x → find by_key xs ≡ some x
  find-Unique [] u e = absurd (ground arith)
  find-Unique (y ∷ xs) u e = elim (Bool-cases (test y)) [
    | inl hit ↦ let same : y ≡ x = some-injective y x (rw hit at e) in rw (same, self) refl
    | inr miss ↦ elim (Bool-cases (by_key y)) [
      | inl clash ↦ absurd (Fresh-find (key y) xs u.0 (rw miss at e) (sym (only y clash)))
      | inr other ↦ rw other (find-Unique xs u.1 (rw miss at e))
    ]
  ]
