-- ===== src/Store/Catalog.antt =====
-- What the store promises about text subscriptions, as a machine on a catalog: ids to entries. The
-- methods of internal/app/store.go refine it.
mod Rows
pub mod Refines
use sub_manager.Base.{
  ℕ, ◌+◌, ◌==◌, ==_iff, ◌≤◌, ◌≡◌, ◌≢◌, ◌∙◌, sym, ap, refl, subst, Bool, true, false, not, ◌&&◌,
  Option, none, some, List, [], ◌∷◌, ◌++◌, Text, text_eq, text_eq_iff, exists, find, count_where,
  update_where, delete_where, arith, if◌then◌else◌, Bool-cases, inl, inr,
}
use sub_manager.Base.Rows.{
  All, Fresh, Unique, All-find, All-of_exists, find_of_exists, find-update, map_option,
  test_of_find, count-Unique, exists_of_find,
}
use sub_manager.Base.Search.{
  find-snoc, find-delete, find-delete_all, find_of_not_exists, not_exists_of_find,
}
use sub_manager.Clock.{Time}
use sub_manager.Store
use sub_manager.Store.{
  Db, SubscriptionRow, SubscriptionType, text_subscription, is_file, Result, ok, err, StoreError,
  no_rows, unique_failed, expect_one,
}
use sub_manager.Store.Valid.{IsValid}

pub record Entry : Type 0 where
  pub name : Text
  pub path : Text
  pub content : Text
  pub kind : SubscriptionType
  pub enabled : Bool

abbrev pub Catalog : Type 0
Catalog = ℕ → Option Entry

abbrev pub entry_of : SubscriptionRow → Entry
entry_of s = record {
  name = s.name;
  path = s.path;
  content = s.content;
  kind = s.kind;
  enabled = s.enabled;
}

abbrev pub map_entry {ℓ} : {A : Type ℓ} → (A → Entry) → Option A → Option Entry
map_entry f none = none
map_entry f (some x) = some (f x)

-- The catalog forgets the order of the rows, and all that is counted.
abbrev pub catalog : Db → Catalog
catalog d k = map_entry entry_of (find (λ s. s.id == k) d.subscriptions)

pub data CatalogCall : Type 0 where
  add : Text → Text → Text → Bool → CatalogCall
  set : ℕ → Text → Text → Text → Bool → CatalogCall
  remove : ℕ → CatalogCall
  enable : ℕ → Bool → CatalogCall

abbrev pub IsTaken : Catalog → Text → (ℕ → Bool) → Type 0
IsTaken c path other = (j : ℕ) × (f : Entry) × (c j ≡ some f) × (f.path ≡ path) × (other j ≡ true)

abbrev pub IsFree : Catalog → Text → (ℕ → Bool) → Type 0
IsFree c path other = (j : ℕ) (f : Entry) → c j ≡ some f → other j ≡ true → f.path ≢ path

-- What the entry `id` becomes.
abbrev pub put : ℕ → Entry → Catalog → Catalog
put id e c j = if id == j then some e else c j

abbrev pub drop : ℕ → Catalog → Catalog
drop id c j = if id == j then none else c j

abbrev pub is_text : Option Entry → Bool
is_text none = false
is_text (some e) = not (is_file e.kind)

abbrev pub is_there : Option Entry → Bool
is_there none = false
is_there (some e) = true

abbrev pub Same : Catalog → Catalog → Type 0
Same c c' = (j : ℕ) → c' j ≡ c j

abbrev pub text_entry : Text → Text → Text → Bool → Entry
text_entry name path content enabled = record {
  name = name;
  path = path;
  content = content;
  kind = text_subscription;
  enabled = enabled;
}

-- The steps of the machine, with the error of a step that fails. A failing step changes nothing.
pub data CatalogStep (c c' : Catalog) : CatalogCall → Option StoreError → Type 0 where
  added :
      {name path content : Text} {enabled : Bool} (id : ℕ)
      → c id ≡ none
      → IsFree c path (λ j. true)
      → Same (put id (text_entry name path content enabled) c) c'
      → CatalogStep c c' (add name path content enabled) none
  add_refused :
      {name path content : Text} {enabled : Bool}
      → IsTaken c path (λ j. true)
      → Same c c'
      → CatalogStep c c' (add name path content enabled) (some unique_failed)
  set_done :
      {id : ℕ} {name path content : Text} {enabled : Bool}
      → is_text (c id) ≡ true
      → IsFree c path (λ j. not (j == id))
      → Same (put id (text_entry name path content enabled) c) c'
      → CatalogStep c c' (set id name path content enabled) none
  set_taken :
      {id : ℕ} {name path content : Text} {enabled : Bool}
      → is_text (c id) ≡ true
      → IsTaken c path (λ j. not (j == id))
      → Same c c'
      → CatalogStep c c' (set id name path content enabled) (some unique_failed)
  set_missing :
      {id : ℕ} {name path content : Text} {enabled : Bool}
      → is_text (c id) ≡ false
      → Same c c'
      → CatalogStep c c' (set id name path content enabled) (some no_rows)
  removed :
      {id : ℕ} → is_there (c id) ≡ true → Same (drop id c) c' → CatalogStep c c' (remove id) none
  remove_missing :
      {id : ℕ} → is_there (c id) ≡ false → Same c c' → CatalogStep c c' (remove id) (some no_rows)
  enable_done :
      {id : ℕ} {on : Bool} (e : Entry)
      → c id ≡ some e
      → Same (put id (record e { enabled = on }) c) c'
      → CatalogStep c c' (enable id on) none
  enable_missing :
      {id : ℕ} {on : Bool}
      → c id ≡ none
      → Same c c'
      → CatalogStep c c' (enable id on) (some no_rows)

abbrev pub outcome {ℓ} : {A : Type ℓ} → Result A × Db → Option StoreError × Db
outcome (ok a, d) = (none, d)
outcome (err e, d) = (some e, d)

unfoldable pub run_call : CatalogCall → Time → Db → Option StoreError × Db
run_call (add name path content enabled) now d =
    outcome (Store.create_subscription name path content enabled now d)
run_call (set id name path content enabled) now d =
    outcome (Store.update_subscription id name path content enabled now d)
run_call (remove id) now d = outcome (Store.delete_subscription id d)
run_call (enable id on) now d = outcome (Store.set_subscription_enabled id on now d)
