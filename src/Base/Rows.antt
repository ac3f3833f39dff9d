-- ===== src/Base/Rows.antt =====
-- Predicates on all rows of a table, keys that no two rows share, and how the shapes of SQL
-- statements keep them.
use mathlib.Core.Path.{◌≡◌, refl, sym, ◌∙◌, subst}
use mathlib.Core.Logic.{◌≢◌, inl, inr}
use mathlib.Core.List.{List, [], ◌∷◌, ◌++◌}
use mathlib.Core.Bool.{Bool, true, false}
use mathlib.Core.Option.{Option, none, some}
use native.Mathlib.Omega.{arith}
use Prim.Native.Nat.{ℕ, ◌+◌}
use sub_manager.Base.Tests.{if◌then◌else◌, Bool-cases}
use sub_manager.Base.Lists.{exists, find, count_where, update_where, delete_where}

abbrev pub All {ℓ κ} : {A : Type ℓ} → (A → Type κ) → List A → Type κ
All P [] = Unit
All P (x ∷ xs) = P x × All P xs

-- No row has the key `k`.
abbrev pub Fresh {ℓ κ} : {A : Type ℓ} {K : Type κ} → (A → K) → K → List A → Type κ
Fresh key k [] = Unit
Fresh key k (x ∷ xs) = (key x ≢ k) × Fresh key k xs

abbrev pub Unique {ℓ κ} : {A : Type ℓ} {K : Type κ} → (A → K) → List A → Type κ
Unique key [] = Unit
Unique key (x ∷ xs) = Fresh key (key x) xs × Unique key xs

module _ {ℓ κ} {A : Type ℓ} (P Q : A → Type κ) where
  pub All-map : (xs : List A) → ((x : A) → P x → Q x) → All P xs → All Q xs
  All-map [] f h = tt
  All-map (x ∷ xs) f h = (f x h.0, All-map xs f h.1)

module _ {ℓ κ} {A : Type ℓ} (P : A → Type κ) where
  pub All-update :
      (p : A → Bool) (f : A → A) (xs : List A)
      → ((x : A) → p x ≡ true → P x → P (f x))
      → All P xs
      → All P (update_where p f xs)
  All-update p f [] g h = tt
  All-update p f (x ∷ xs) g h = elim (Bool-cases (p x)) [
    | inl hit ↦ (rw hit (g x hit h.0), All-update p f xs g h.1)
    | inr miss ↦ (rw miss h.0, All-update p f xs g h.1)
  ]

  pub All-delete : (p : A → Bool) (xs : List A) → All P xs → All P (delete_where p xs)
  All-delete p [] h = tt
  All-delete p (x ∷ xs) h = elim (Bool-cases (p x)) [
    | inl hit ↦ rw hit (All-delete p xs h.1)
    | inr miss ↦ rw miss (h.0, All-delete p xs h.1)
  ]

  -- The rows that are left do not meet the condition.
  pub All-delete_ne :
      (p : A → Bool) (Q : A → Type κ) (xs : List A)
      → ((x : A) → p x ≡ false → Q x → P x)
      → All Q xs
      → All P (delete_where p xs)
  All-delete_ne p Q [] f h = tt
  All-delete_ne p Q (x ∷ xs) f h = elim (Bool-cases (p x)) [
    | inl hit ↦ rw hit (All-delete_ne p Q xs f h.1)
    | inr miss ↦ rw miss (f x miss h.0, All-delete_ne p Q xs f h.1)
  ]

  pub All-snoc : (xs : List A) (x : A) → All P xs → P x → All P (xs ++ x ∷ [])
  All-snoc [] x h p = (p, tt)
  All-snoc (y ∷ xs) x h p = (h.0, All-snoc xs x h.1 p)

  pub All-find : (p : A → Bool) (xs : List A) (x : A) → find p xs ≡ some x → All P xs → P x
  All-find p [] x e h = absurd (ground arith)
  All-find p (y ∷ xs) x e h = elim (Bool-cases (p y)) [
    | inl hit ↦ subst P (ground arith) h.0
    | inr miss ↦ All-find p xs x (rw miss at e) h.1
  ]

module _ {ℓ κ} {A : Type ℓ} {K : Type κ} (key : A → K) where
  pub Fresh-update :
      (k : K) (p : A → Bool) (f : A → A) (xs : List A)
      → ((x : A) → key (f x) ≡ key x)
      → Fresh key k xs
      → Fresh key k (update_where p f xs)
  Fresh-update k p f [] g h = tt
  Fresh-update k p f (x ∷ xs) g h = elim (Bool-cases (p x)) [
    | inl hit ↦ (rw hit (λ e. h.0 (sym (g x) ∙ e)), Fresh-update k p f xs g h.1)
    | inr miss ↦ (rw miss h.0, Fresh-update k p f xs g h.1)
  ]

  pub Unique-update :
      (p : A → Bool) (f : A → A) (xs : List A)
      → ((x : A) → key (f x) ≡ key x)
      → Unique key xs
      → Unique key (update_where p f xs)
  Unique-update p f [] g h = tt
  Unique-update p f (x ∷ xs) g h = elim (Bool-cases (p x)) [
    | inl hit ↦ (rw (hit, g x) (Fresh-update (key x) p f xs g h.0), Unique-update p f xs g h.1)
    | inr miss ↦ (rw miss (Fresh-update (key x) p f xs g h.0), Unique-update p f xs g h.1)
  ]

  pub Fresh-delete :
      (k : K) (p : A → Bool) (xs : List A) → Fresh key k xs → Fresh key k (delete_where p xs)
  Fresh-delete k p [] h = tt
  Fresh-delete k p (x ∷ xs) h = elim (Bool-cases (p x)) [
    | inl hit ↦ rw hit (Fresh-delete k p xs h.1)
    | inr miss ↦ rw miss (h.0, Fresh-delete k p xs h.1)
  ]

  pub Unique-delete : (p : A → Bool) (xs : List A) → Unique key xs → Unique key (delete_where p xs)
  Unique-delete p [] h = tt
  Unique-delete p (x ∷ xs) h = elim (Bool-cases (p x)) [
    | inl hit ↦ rw hit (Unique-delete p xs h.1)
    | inr miss ↦ rw miss (Fresh-delete (key x) p xs h.0, Unique-delete p xs h.1)
  ]

  Fresh-snoc :
      (k : K) (xs : List A) (x : A) → Fresh key k xs → key x ≢ k → Fresh key k (xs ++ x ∷ [])
  Fresh-snoc k [] x h n = (n, tt)
  Fresh-snoc k (y ∷ xs) x h n = (h.0, Fresh-snoc k xs x h.1 n)

  pub Unique-snoc :
      (xs : List A) (x : A) → Unique key xs → Fresh key (key x) xs → Unique key (xs ++ x ∷ [])
  Unique-snoc [] x u n = (tt, tt)
  Unique-snoc (y ∷ xs) x u n =
      (Fresh-snoc (key y) xs x u.0 (λ e. n.0 (sym e)), Unique-snoc xs x u.1 n.1)

  -- A test that finds no row with the key shows that the key is fresh.
  pub Fresh-of_exists :
      (test : A → Bool) (k : K) (xs : List A)
      → ((x : A) → key x ≡ k → test x ≡ true)
      → exists test xs ≡ false
      → Fresh key k xs
  Fresh-of_exists test k [] g h = tt
  Fresh-of_exists test k (x ∷ xs) g h = elim (Bool-cases (test x)) [
    | inl hit ↦ absurd (ground arith)
    | inr miss ↦ (λ e. ground (arith, g x e), Fresh-of_exists test k xs g (rw miss at h))
  ]

module _ {ℓ} {A : Type ℓ} where
  pub exists-update :
      (test p : A → Bool) (f : A → A) (xs : List A)
      → ((x : A) → test (f x) ≡ test x)
      → exists test (update_where p f xs) ≡ exists test xs
  exists-update test p f [] g = refl
  exists-update test p f (x ∷ xs) g = ground (arith, g x, exists-update test p f xs g)

  pub exists-snoc :
      (test : A → Bool) (xs : List A) (x : A)
      → exists test xs ≡ true
      → exists test (xs ++ x ∷ []) ≡ true
  exists-snoc test [] x h = ground arith
  exists-snoc test (y ∷ xs) x h = ground (arith, exists-snoc test xs x)

  -- Deleting rows that fail a test leaves the test's answer.
  pub exists-delete :
      (test p : A → Bool) (xs : List A)
      → ((x : A) → p x ≡ true → test x ≡ false)
      → exists test (delete_where p xs) ≡ exists test xs
  exists-delete test p [] g = refl
  exists-delete test p (x ∷ xs) g = ground (arith, g x, exists-delete test p xs g)

  pub exists_of_count :
      (p : A → Bool) (xs : List A) (n : ℕ) → count_where p xs ≡ n + 1 → exists p xs ≡ true
  exists_of_count p [] n h = absurd (omega arith)
  exists_of_count p (x ∷ xs) n h = ground (arith, exists_of_count p xs n)

module _ {ℓ κ} {A : Type ℓ} (P Q : A → Type κ) where
  pub All-update_map :
      (p : A → Bool) (f : A → A) (xs : List A)
      → ((x : A) → P x → Q (if p x then f x else x))
      → All P xs
      → All Q (update_where p f xs)
  All-update_map p f [] g h = tt
  All-update_map p f (x ∷ xs) g h = (g x h.0, All-update_map p f xs g h.1)

  pub All-zip : (xs : List A) → All P xs → All Q xs → All (λ x. P x × Q x) xs
  All-zip [] h k = tt
  All-zip (x ∷ xs) h k = ((h.0, k.0), All-zip xs h.1 k.1)

pub All-of_exists {ℓ} :
    {A : Type ℓ} (test : A → Bool) (xs : List A)
    → exists test xs ≡ false
    → All (λ x. test x ≡ false) xs
All-of_exists test [] h = tt
All-of_exists test (x ∷ xs) h = (ground arith, All-of_exists test xs (ground arith))

module _ {ℓ} {A : Type ℓ} where
  abbrev pub map_option : (A → A) → Option A → Option A
  map_option f none = none
  map_option f (some x) = some (f x)

  -- An update that does not touch what a search tests changes what is found, and nothing else.
  pub find-update :
      (test p : A → Bool) (f : A → A) (xs : List A)
      → ((x : A) → test (f x) ≡ test x)
      → find test (update_where p f xs) ≡ map_option (λ x. if p x then f x else x) (find test xs)
  find-update test p f [] g = refl
  find-update test p f (x ∷ xs) g = ground (arith, g x, find-update test p f xs g)

  pub exists_of_find :
      (test : A → Bool) (xs : List A) (x : A) → find test xs ≡ some x → exists test xs ≡ true
  exists_of_find test [] x h = absurd (ground arith)
  exists_of_find test (y ∷ xs) x h = ground (arith, exists_of_find test xs x)

  pub find_of_exists :
      (test : A → Bool) (xs : List A) → exists test xs ≡ true → (x : A) × (find test xs ≡ some x)
  find_of_exists test [] h = absurd (ground arith)
  find_of_exists test (y ∷ xs) h = elim (Bool-cases (test y)) [
    | inl hit ↦ (y, rw hit)
    | inr miss ↦ rw miss (find_of_exists test xs (rw miss at h))
  ]

  pub test_of_find : (test : A → Bool) (xs : List A) (x : A) → find test xs ≡ some x → test x ≡ true
  test_of_find test [] x h = absurd (ground arith)
  test_of_find test (y ∷ xs) x h = ground (arith, test_of_find test xs x)

-- A key that no two rows share is met by one row at most.
module _ {ℓ κ} {A : Type ℓ} {K : Type κ} (key : A → K) (k : K) (p : A → Bool)
    (only : (x : A) → p x ≡ true → key x ≡ k) where
  count-Fresh : (xs : List A) → Fresh key k xs → count_where p xs ≡ 0
  count-Fresh [] f = refl
  count-Fresh (x ∷ xs) f = elim (Bool-cases (p x)) [
    | inl hit ↦ absurd (f.0 (only x hit))
    | inr miss ↦ rw miss (omega (arith, count-Fresh xs f.1))
  ]

  pub count-Unique :
      (xs : List A) → Unique key xs → count_where p xs ≡ (if exists p xs then 1 else 0)
  count-Unique [] u = refl
  count-Unique (x ∷ xs) u = elim (Bool-cases (p x)) [
    | inl hit ↦
        rw (hit, count-Fresh xs (subst (λ n. Fresh key n xs) (only x hit) u.0)) (omega arith)
    | inr miss ↦ rw miss (omega (arith, count-Unique xs u.1))
  ]
