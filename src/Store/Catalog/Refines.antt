-- ===== src/Store/Catalog/Refines.antt =====
-- The methods on text subscriptions refine the machine on catalogs.
use sub_manager.Base.{
  ℕ, ◌+◌, ◌==◌, ==_iff, ◌≡◌, ◌∙◌, sym, ap, refl, subst, Bool, true, not, ◌&&◌, Option, none, some,
  Text, text_eq, text_eq_iff, exists, find, count_where, arith, Bool-cases, inl, inr,
}
use sub_manager.Base.Rows.{find_of_exists, test_of_find, count-Unique}
use sub_manager.Base.Search.{find_of_not_exists}
use sub_manager.Clock.{Time}
use sub_manager.Store
use sub_manager.Store.{
  Db, SubscriptionRow, SubscriptionType, text_subscription, is_file, Result, ok, err, StoreError,
  no_rows, unique_failed, expect_one,
}
use sub_manager.Store.Valid.{IsValid}
use sub_manager.Store.Catalog.{
  entry_of, map_entry, catalog, CatalogCall, add, set, remove, enable, is_text, text_entry,
  CatalogStep, added, add_refused, set_done, set_taken, set_missing, removed, remove_missing,
  enable_done, enable_missing, run_call,
}
use sub_manager.Store.Catalog.Rows.{
  find-own, taken, free, kind_text, not_found, meets, exists_by_id, update_none, catalog-update,
  catalog-delete, catalog-insert,
}

module _ (now : Time) (d : Db) (v : IsValid d) where
  abbrev Refines : CatalogCall → Type 0
  Refines call = let (e, d') = run_call call now d in CatalogStep (catalog d) (catalog d') call e

  add-Refines :
      (name path content : Text) (enabled : Bool) → Refines (add name path content enabled)
  unfolding run_call Store.create_subscription Store.insert_subscription
  add-Refines name path content enabled =
      elim (Bool-cases (exists (λ s. text_eq s.path path) d.subscriptions)) [
        | inl clash ↦ rw clash (
            add_refused
              (taken path (λ j. true) (λ s. text_eq s.path path) d v
                (λ s h. ((text_eq_iff s.path path).0 h, refl)) clash)
              (λ j. refl))
        | inr unused ↦ rw unused (
            added (d.last_subscription + 1)
              (ap (map_entry entry_of) (
                find_of_not_exists (λ s. s.id == d.last_subscription + 1) d.subscriptions
                  (not_found d.last_subscription d.subscriptions v.subs.bound)))
              (free path (λ j. true) (λ s. text_eq s.path path) d
                (λ s t h. (text_eq_iff s.path path).1 h) unused)
              (catalog-insert d _ v refl))
      ]

  remove-Refines : (id : ℕ) → Refines (remove id)
  unfolding run_call Store.delete_subscription Store.delete_subscription_row expect_one
  remove-Refines id =
      let one =
        count-Unique (λ (s : SubscriptionRow). s.id) id (λ s. s.id == id) (λ s h. ground arith)
          d.subscriptions v.subs.ids in
      elim (Bool-cases (exists (λ s. s.id == id) d.subscriptions)) [
        | inl there ↦
            let (row, found) = find_of_exists (λ s. s.id == id) d.subscriptions there in
            rw (one, there) (removed (rw found refl) (catalog-delete id d))
        | inr absent ↦
            let missing = find_of_not_exists (λ s. s.id == id) d.subscriptions absent in
            rw (one, absent)
              (remove_missing (rw missing refl) (λ j.
                catalog-delete id d j ∙ elim (Bool-cases (id == j)) [
                  | inr other ↦ rw other refl
                  | inl here ↦
                      let ij : id ≡ j = (==_iff id j).0 here in
                      rw here (
                        sym (
                          ap (map_entry entry_of)
                            (subst (λ n. find (λ s. s.id == n) d.subscriptions ≡ none) ij missing)))
                ]))
      ]

  enable-Refines : (id : ℕ) (on : Bool) → Refines (enable id on)
  unfolding run_call Store.set_subscription_enabled Store.update_subscriptions expect_one
  enable-Refines id on =
      let one =
        count-Unique (λ (s : SubscriptionRow). s.id) id (λ s. s.id == id) (λ s h. ground arith)
          d.subscriptions v.subs.ids in
      let f = Store.set_enabled on now in
      elim (Bool-cases (exists (λ s. s.id == id) d.subscriptions)) [
        | inl there ↦
            let (row, found) = find_of_exists (λ s. s.id == id) d.subscriptions there in
            rw (one, there)
              (enable_done (entry_of row) (ap (map_entry entry_of) found) (
                catalog-update id (λ s. s.id == id) f (λ s h. (==_iff s.id id).0 h) (λ s. refl) d
                  row (record (entry_of row) { enabled = on }) found
                  (test_of_find (λ s. s.id == id) d.subscriptions row found) refl))
        | inr absent ↦
            rw (one, absent)
              (enable_missing
                (ap (map_entry entry_of)
                  (find_of_not_exists (λ s. s.id == id) d.subscriptions absent))
                (λ j. rw (update_none (λ s. s.id == id) f d.subscriptions absent) refl))
      ]

  set-Refines :
      (id : ℕ) (name path content : Text) (enabled : Bool)
      → Refines (set id name path content enabled)
  unfolding run_call Store.update_subscription Store.update_subscription_path expect_one
  set-Refines id name path content enabled =
      let p = λ (s : SubscriptionRow). not (is_file s.kind) in
      let q = λ (s : SubscriptionRow). s.id == id && p s in
      let clashes = λ (s : SubscriptionRow). text_eq s.path path && not (s.id == id) in
      let f = Store.set_text name path content enabled now in
      let one =
        count-Unique (λ (s : SubscriptionRow). s.id) id q (λ s h. ground arith) d.subscriptions
          v.subs.ids in
      let by_id = exists_by_id id p d.subscriptions v.subs.ids in
      elim (Bool-cases (exists q d.subscriptions)) [
        | inr absent ↦
            let counted : count_where q d.subscriptions ≡ 0 = one ∙ rw absent refl in
            rw (absent, counted)
              (set_missing (text_of (find (λ s. s.id == id) d.subscriptions) ∙ sym by_id ∙ absent)
                (λ j. rw (update_none q f d.subscriptions absent) refl))
        | inl there ↦ elim (Bool-cases (exists clashes d.subscriptions)) [
          | inl clash ↦
              rw (there, clash)
                (set_taken (text_of (find (λ s. s.id == id) d.subscriptions) ∙ sym by_id ∙ there)
                  (taken path (λ j. not (j == id)) clashes d v
                    (λ s h. ((text_eq_iff s.path path).0 (ground arith), ground arith)) clash)
                  (λ j. refl))
          | inr unused ↦
              let (row, found) = find_of_exists q d.subscriptions there in
              let hit : q row ≡ true = test_of_find q d.subscriptions row found in
              let own : find (λ s. s.id == id) d.subscriptions ≡ some row =
                subst (λ n. find (λ s. s.id == n) d.subscriptions ≡ some row) (ground arith)
                  (find-own q d.subscriptions row v.subs.ids found) in
              let text : row.kind ≡ text_subscription = kind_text row.kind (ground arith) in
              let counted : count_where q d.subscriptions ≡ 1 = one ∙ rw there refl in
              rw (there, unused, counted)
                (set_done (text_of (find (λ s. s.id == id) d.subscriptions) ∙ sym by_id ∙ there)
                  (free path (λ j. not (j == id)) clashes d
                    (λ s t h. ground (arith, text_eq_iff s.path path)) unused)
                  (catalog-update id q f (λ s h. ground arith) (λ s. refl) d row
                    (text_entry name path content enabled) own hit
                    (ap (λ k. record (entry_of (f row)) { kind = k }) text)))
        ]
      ]
    where
      text_of :
          (o : Option SubscriptionRow)
          → is_text (map_entry entry_of o) ≡ meets (λ s. not (is_file s.kind)) o
      text_of none = refl
      text_of (some s) = refl

  -- In a valid database, each call of `CreateSubscription`, `UpdateSubscription`, `DeleteSubscription` and
  -- `SetSubscriptionEnabled` is a step of the machine on catalogs: it succeeds exactly where the machine
  -- does, with the catalog that the machine gives, and fails with the machine's error, and then the
  -- catalog stays as it is.
  pub run_call-CatalogStep :
      (call : CatalogCall)
      → CatalogStep (catalog d) (catalog (run_call call now d).1) call (run_call call now d).0
  run_call-CatalogStep (add name path content enabled) = add-Refines name path content enabled
  run_call-CatalogStep (set id name path content enabled) = set-Refines id name path content enabled
  run_call-CatalogStep (remove id) = remove-Refines id
  run_call-CatalogStep (enable id on) = enable-Refines id on
