-- ===== src/Store/Catalog/Rows.antt =====
-- What the statements do to the catalog of a table.
use sub_manager.Base.{
  ℕ, ◌+◌, ◌==◌, ==_iff, ◌≤◌, ◌≡◌, ◌≢◌, ◌∙◌, sym, ap, refl, subst, Bool, true, false, ◌&&◌, Option,
  none, some, List, [], ◌∷◌, ◌++◌, Text, exists, find, update_where, delete_where, arith,
  if◌then◌else◌, Bool-cases, inl, inr,
}
use sub_manager.Base.Rows.{
  All, Fresh, Unique, All-find, All-of_exists, find_of_exists, find-update, map_option,
  test_of_find,
}
use sub_manager.Base.Search.{find-snoc, find-delete, find-delete_all, find_of_not_exists}
use sub_manager.Store
use sub_manager.Store.{
  Db, SubscriptionRow, SubscriptionType, text_subscription, is_file, Result, ok, err, StoreError,
  no_rows, unique_failed, expect_one,
}
use sub_manager.Store.Valid.{IsValid}
use sub_manager.Store.Catalog.{Entry, entry_of, map_entry, catalog, IsTaken, IsFree, put, drop}

Fresh-found :
    (k : ℕ) (test : SubscriptionRow → Bool) (subs : List SubscriptionRow) (row : SubscriptionRow)
    → Fresh (λ s. s.id) k subs
    → find test subs ≡ some row
    → (k == row.id) ≡ false
Fresh-found k test [] row f e = absurd (ground arith)
Fresh-found k test (s ∷ subs) row f e = elim (Bool-cases (test s)) [
  | inl hit ↦
      let same : s ≡ row = ground arith in
      let apart : s.id ≢ k = f.0 in subst (λ r. (k == r.id) ≡ false) same (ground arith)
  | inr miss ↦ Fresh-found k test subs row f.1 (rw miss at e)
]

-- A row that is found by anything is found by its id.
pub find-own :
    (test : SubscriptionRow → Bool) (subs : List SubscriptionRow) (row : SubscriptionRow)
    → Unique (λ s. s.id) subs
    → find test subs ≡ some row
    → find (λ s. s.id == row.id) subs ≡ some row
find-own test [] row u e = absurd (ground arith)
find-own test (s ∷ subs) row u e = elim (Bool-cases (test s)) [
  | inl hit ↦
      let same : s ≡ row = ground arith in
      subst (λ r. find (λ t. t.id == r.id) (s ∷ subs) ≡ some r) same
        (rw ((==_iff s.id s.id).1 refl) refl)
  | inr miss ↦
      let found : find test subs ≡ some row = rw miss at e in
      rw (Fresh-found s.id test subs row u.0 found) (find-own test subs row u.1 found)
]

module _ (path : Text) (other : ℕ → Bool) (test : SubscriptionRow → Bool) where
  pub taken :
      (d : Db)
      → IsValid d
      → ((s : SubscriptionRow) → test s ≡ true → (s.path ≡ path) × (other s.id ≡ true))
      → exists test d.subscriptions ≡ true
      → IsTaken (catalog d) path other
  taken d v sound h =
      let (row, found) = find_of_exists test d.subscriptions h in
      let (same, apart) = sound row (test_of_find test d.subscriptions row found) in
      (
        row.id,
        entry_of row,
        ap (map_entry entry_of) (find-own test d.subscriptions row v.subs.ids found),
        same,
        apart,
      )

  pub free :
      (d : Db)
      → ((s : SubscriptionRow) → other s.id ≡ true → s.path ≡ path → test s ≡ true)
      → exists test d.subscriptions ≡ false
      → IsFree (catalog d) path other
  free d complete h j f e apart same = go (find (λ s. s.id == j) d.subscriptions) refl e
    where
      go :
          (o : Option SubscriptionRow)
          → find (λ s. s.id == j) d.subscriptions ≡ o
          → map_entry entry_of o ≡ some f
          → ⊥
      go none found k = absurd (ground arith)
      go (some row) found k =
          let id : row.id ≡ j =
            ground (arith, test_of_find (λ s. s.id == j) d.subscriptions row found) in
          let miss : test row ≡ false =
            All-find (λ s. test s ≡ false) (λ s. s.id == j) d.subscriptions row found
              (All-of_exists test d.subscriptions h) in
          let entry : entry_of row ≡ f = entry_inj (entry_of row) f k in
          let path_same : row.path ≡ path = ap (λ (x : Entry). x.path) entry ∙ same in
          let hit : test row ≡ true =
            complete row (subst (λ n. other n ≡ true) (sym id) apart) path_same in
          absurd (ground arith)
        where
          entry_inj : (x y : Entry) → some x ≡ some y → x ≡ y
          entry_inj x y q = cc

pub kind_text : (k : SubscriptionType) → is_file k ≡ false → k ≡ text_subscription
kind_text text_subscription h = refl
kind_text Store.file_subscription h = absurd (ground arith)

pub not_found :
    (last : ℕ) (subs : List SubscriptionRow)
    → All (λ s. s.id ≤ last) subs
    → exists (λ s. s.id == last + 1) subs ≡ false
not_found last [] h = refl
not_found last (s ∷ subs) h = ground (arith, h.0, not_found last subs h.1)

Fresh-exists :
    (id : ℕ) (p : SubscriptionRow → Bool) (subs : List SubscriptionRow)
    → Fresh (λ s. s.id) id subs
    → exists (λ s. s.id == id && p s) subs ≡ false
Fresh-exists id p [] f = refl
Fresh-exists id p (s ∷ subs) f =
    let apart : (s.id == id) ≡ false = elim (Bool-cases (s.id == id)) [
      | inl same ↦ absurd (f.0 ((==_iff s.id id).0 same))
      | inr differ ↦ differ
    ] in
    rw apart (Fresh-exists id p subs f.1)

abbrev pub meets : (SubscriptionRow → Bool) → Option SubscriptionRow → Bool
meets p none = false
meets p (some s) = p s

-- Whether the row `id` meets a test.
pub exists_by_id :
    (id : ℕ) (p : SubscriptionRow → Bool) (subs : List SubscriptionRow)
    → Unique (λ s. s.id) subs
    → exists (λ s. s.id == id && p s) subs ≡ meets p (find (λ s. s.id == id) subs)
exists_by_id id p [] u = refl
exists_by_id id p (s ∷ subs) u = elim (Bool-cases (s.id == id)) [
  | inr miss ↦ rw miss (exists_by_id id p subs u.1)
  | inl hit ↦
      let same : s.id ≡ id = (==_iff s.id id).0 hit in
      let rest =
        Fresh-exists id p subs
          (subst (λ k. Fresh (λ (t : SubscriptionRow). t.id) k subs) same u.0) in
      rw (hit, rest) (if_same (p s))
]
  where
    if_same : (b : Bool) → (if b then true else false) ≡ b
    if_same true = refl
    if_same false = refl

pub update_none :
    (q : SubscriptionRow → Bool) (f : SubscriptionRow → SubscriptionRow)
    (subs : List SubscriptionRow)
    → exists q subs ≡ false
    → update_where q f subs ≡ subs
update_none q f [] h = refl
update_none q f (s ∷ subs) h = ground (arith, update_none q f subs)

-- What an update of the row `id` that keeps the ids does to the catalog.
module _ (id : ℕ) (q : SubscriptionRow → Bool) (f : SubscriptionRow → SubscriptionRow)
    (only : (s : SubscriptionRow) → q s ≡ true → s.id ≡ id)
    (same : (s : SubscriptionRow) → (f s).id ≡ s.id) where
  pub catalog-update :
      (d : Db) (row : SubscriptionRow) (e : Entry)
      → find (λ s. s.id == id) d.subscriptions ≡ some row
      → q row ≡ true
      → entry_of (f row) ≡ e
      → (j : ℕ)
      → map_entry entry_of (find (λ s. s.id == j) (update_where q f d.subscriptions))
        ≡ put id e (catalog d) j
  catalog-update d row e found hit entry j =
      ap (map_entry entry_of)
        (find-update (λ s. s.id == j) q f d.subscriptions (λ s. ap (λ n. n == j) (same s)))
      ∙ elim (Bool-cases (id == j)) [
        | inr other ↦ rw other (stays (find (λ s. s.id == j) d.subscriptions) refl other)
        | inl here ↦
            let ij : id ≡ j = (==_iff id j).0 here in
            let found_j : find (λ s. s.id == j) d.subscriptions ≡ some row =
              subst (λ n. find (λ s. s.id == n) d.subscriptions ≡ some row) ij found in
            rw (here, found_j, hit) (ap (λ x. some x) entry)
      ]
    where
      stays :
          (o : Option SubscriptionRow)
          → find (λ s. s.id == j) d.subscriptions ≡ o
          → (id == j) ≡ false
          → map_entry entry_of (map_option (λ x. if q x then f x else x) o) ≡ map_entry entry_of o
      stays none g k = refl
      stays (some r) g k =
          let rj : (r.id == j) ≡ true = test_of_find (λ s. s.id == j) d.subscriptions r g in
          elim (Bool-cases (q r)) [
            | inr miss ↦ rw miss refl
            | inl hit_r ↦ absurd (ground (arith, only r hit_r))
          ]

pub catalog-delete :
    (id : ℕ) (d : Db) (j : ℕ)
    → map_entry entry_of (find (λ s. s.id == j) (delete_where (λ s. s.id == id) d.subscriptions))
      ≡ drop id (catalog d) j
catalog-delete id d j = elim (Bool-cases (id == j)) [
  | inl here ↦
      let ij : id ≡ j = (==_iff id j).0 here in
      rw here (
        ap (map_entry entry_of) (
          find-delete_all (λ s. s.id == j) (λ s. s.id == id) d.subscriptions (λ s h. ground arith)))
  | inr other ↦ rw other (
      ap (map_entry entry_of)
        (find-delete (λ s. s.id == j) (λ s. s.id == id) d.subscriptions (λ s h. ground arith)))
]

pub catalog-insert :
    (d : Db) (row : SubscriptionRow)
    → IsValid d
    → row.id ≡ d.last_subscription + 1
    → (j : ℕ)
    → map_entry entry_of (find (λ s. s.id == j) (d.subscriptions ++ row ∷ []))
      ≡ put row.id (entry_of row) (catalog d) j
catalog-insert d row v id j =
    ap (map_entry entry_of) (find-snoc (λ s. s.id == j) d.subscriptions row)
    ∙ elim (Bool-cases (row.id == j)) [
      | inl here ↦
          let ij : d.last_subscription + 1 ≡ j = sym id ∙ (==_iff row.id j).0 here in
          let absent : exists (λ s. s.id == j) d.subscriptions ≡ false =
            subst (λ n. exists (λ s. s.id == n) d.subscriptions ≡ false) ij
              (not_found d.last_subscription d.subscriptions v.subs.bound) in
          rw (absent, here) refl
      | inr other ↦ elim (Bool-cases (exists (λ s. s.id == j) d.subscriptions)) [
        | inl there ↦ rw (there, other) refl
        | inr absent ↦
            rw (absent, other, find_of_not_exists (λ s. s.id == j) d.subscriptions absent) refl
      ]
    ]
