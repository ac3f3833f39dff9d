-- ===== src/Store/Counting.antt =====
-- What `RecordAccess` of internal/app/store.go counts.
use sub_manager.Base.{
  ==_iff, ℕ, ◌+◌, ◌≤◌, ◌≡◌, ◌∙◌, sym, ap, refl, subst, true, false, ◌&&◌, ◌==◌, Option, none, some,
  List, [], ◌∷◌, ◌⊎◌, Text, find, update_where, arith, if◌then◌else◌, Bool-cases, inl, inr,
}
use sub_manager.Base.Rows.{
  All, Unique, Fresh, All-update_map, All-find, map_option, find-update, test_of_find,
}
use sub_manager.Clock.{Time}
use sub_manager.Store.Tables.{
  SubscriptionRow, LogRow, Db, Result, ok, err, StoreError, Exec, commit_or_rollback, opt_eq,
  has_file, is_file, expect_one,
}
use sub_manager.Store.Statements.{
  update_subscriptions, update_subscription_file, update_file, upsert_stat, insert_log,
}
use sub_manager.Store.Subscriptions.{Subscription, scan_subscription}
use sub_manager.Store.FileLinks.{replace_subscription_file, set_file}
use sub_manager.Store.Access.{record_access, access_body, record_file, count_fetch, access_row}
use sub_manager.Store.Commands.{Command, run_all}
use sub_manager.Store.Valid.{IsValid, run_all-Keeps}
use sub_manager.Store.Revision.{RevisionFrom, RevisionFrom-laws}

abbrev pub count_of : Option SubscriptionRow → Option ℕ
count_of none = none
count_of (some s) = some s.current_fetch_count

-- The count since the last change of the file, of the subscription `k`.
abbrev pub current_count : ℕ → Db → Option ℕ
current_count k d = count_of (find (λ s. s.id == k) d.subscriptions)

module _ (sub : Subscription) (file : ℕ) (ip client agent method : Text) (status : ℕ)
    (now : Time) where
  abbrev access : Exec (Unit {0})
  access = record_access sub file ip client agent method status now

  -- The database after the first statement.
  abbrev counted : Db → Db
  counted d = record d {
    subscriptions =
        update_where (λ s. s.id == sub.id) (count_fetch file sub.file_revision now ip)
          d.subscriptions;
  }

  record_file-rows : (d : Db) → (record_file file sub.id now ip d).1.subscriptions ≡ d.subscriptions
  unfolding record_file update_file upsert_stat expect_one
  record_file-rows d = ground arith

  insert_log-rows :
      (make : ℕ → LogRow) (d : Db) → (insert_log make d).1.subscriptions ≡ d.subscriptions
  unfolding insert_log
  insert_log-rows make d = ground arith

  access_body-rows :
      (d : Db)
      → (access_body sub file ip client agent method status now d).1.subscriptions
        ≡ (counted d).subscriptions
  unfolding access_body update_subscriptions expect_one
  access_body-rows d =
      let make = access_row sub.id file ip client agent method status now in
      ground (
        arith,
        record_file-rows (counted d),
        insert_log-rows make (counted d),
        insert_log-rows make (record_file file sub.id now ip (counted d)).1,
      )

  -- A fetch that fails leaves the whole database as it was, also where the first statements of its
  -- transaction had succeeded.
  pub access_atomic : (d : Db) (e : StoreError) → (access d).0 ≡ err e → (access d).1 ≡ d
  unfolding record_access
  access_atomic d e h = ground arith

  -- The rows of `subscriptions` after a fetch: those before it if it failed.
  access_rows :
      (d : Db) → ((access d).1 ≡ d) ⊎ ((access d).1.subscriptions ≡ (counted d).subscriptions)
  unfolding record_access
  access_rows d =
      rolled d (access_body sub file ip client agent method status now d) (access_body-rows d)
    where
      rolled :
          (d : Db) (r : Result (Unit {0}) × Db)
          → r.1.subscriptions ≡ (counted d).subscriptions
          → ((commit_or_rollback d r).1 ≡ d)
            ⊎ ((commit_or_rollback d r).1.subscriptions ≡ (counted d).subscriptions)
      rolled d (ok a, d') e = inr e
      rolled d (err x, d') e = inl refl

  stale_count :
      (s : SubscriptionRow)
      → (s.id ≡ sub.id → sub.file_revision + 1 ≤ s.file_revision)
      → (if s.id == sub.id
          then count_fetch file sub.file_revision now ip s
          else s).current_fetch_count
        ≡ s.current_fetch_count
  stale_count s h = ground arith

  stale_counted :
      (d : Db) (k : ℕ)
      → RevisionFrom sub.id (sub.file_revision + 1) d
      → count_of (find (λ s. s.id == k) (counted d).subscriptions) ≡ current_count k d
  stale_counted d k r =
      rw
        (find-update (λ s. s.id == k) (λ s. s.id == sub.id)
          (count_fetch file sub.file_revision now ip) d.subscriptions (λ s. refl))
        (go (find (λ s. s.id == k) d.subscriptions) refl)
    where
      go :
          (o : Option SubscriptionRow)
          → find (λ s. s.id == k) d.subscriptions ≡ o
          → count_of (
              map_option
                (λ s. if s.id == sub.id then count_fetch file sub.file_revision now ip s else s)
                o)
            ≡ count_of o
      go none e = refl
      go (some s) e = ap some (
          stale_count s (
            All-find (λ t. t.id ≡ sub.id → sub.file_revision + 1 ≤ t.file_revision) (λ t. t.id == k)
              d.subscriptions s e r.from))

  -- A fetch that began before the row got its present revision changes no current count.
  stale_access :
      (d : Db) (k : ℕ)
      → RevisionFrom sub.id (sub.file_revision + 1) d
      → current_count k (access d).1 ≡ current_count k d
  stale_access d k r = elim (access_rows d) [
    | inl same ↦ ap (current_count k) same
    | inr counts ↦ ap (λ l. count_of (find (λ s. s.id == k) l)) counts ∙ stale_counted d k r
  ]

-- The row that a search by id finds is the only one with that id.
only_row :
    (k : ℕ) (r : SubscriptionRow) (subs : List SubscriptionRow)
    → Unique (λ s. s.id) subs
    → find (λ s. s.id == k) subs ≡ some r
    → All (λ s. s.id ≡ k → s ≡ r) subs
only_row k r [] u e = tt
only_row k r (s ∷ subs) u e = elim (Bool-cases (s.id == k)) [
  | inl hit ↦
      let same : s ≡ r = ground arith in
      ((λ _. same), others subs (subst (λ n. Fresh (λ t. t.id) n subs) (ground arith) u.0))
  | inr miss ↦ ((λ h. ground arith), only_row k r subs u.1 (rw miss at e))
]
  where
    others : (l : List SubscriptionRow) → Fresh (λ t. t.id) k l → All (λ t. t.id ≡ k → t ≡ r) l
    others [] f = tt
    others (t ∷ l) f = ((λ h. absurd (f.0 h)), others l f.1)

replaced_rows :
    (d : Db) (k file : ℕ) (name : Text) (now : Time)
    → has_file file d.files ≡ true
    → (replace_subscription_file k file name now d).1 ≡ record d {
      subscriptions =
          update_where (λ s. s.id == k && is_file s.kind) (set_file file name now) d.subscriptions;
    }
unfolding replace_subscription_file update_subscription_file expect_one
replaced_rows d k file name now there = ground arith

raised :
    (k file : ℕ) (name : Text) (now : Time) (r s : SubscriptionRow)
    → is_file r.kind ≡ true
    → opt_eq r.file_id file ≡ false
    → (s.id ≡ k → s ≡ r)
    → (if s.id == k && is_file s.kind then set_file file name now s else s).id ≡ k
    → r.file_revision + 1
      ≤ (if s.id == k && is_file s.kind then set_file file name now s else s).file_revision
raised k file name now r s kind other only e = elim (Bool-cases (s.id == k)) [
  | inl hit ↦
      let same : s ≡ r = only (ground arith) in
      rw (same, kind, other, ap (λ (t : SubscriptionRow). t.id == k) (sym same) ∙ hit) (omega arith)
  | inr miss ↦ absurd (ground arith)
]

-- A change of the file raises the revision of the row.
replace-RevisionFrom :
    (d : Db) (k file : ℕ) (name : Text) (now : Time) (r : SubscriptionRow)
    → IsValid d
    → find (λ s. s.id == k) d.subscriptions ≡ some r
    → is_file r.kind ≡ true
    → opt_eq r.file_id file ≡ false
    → has_file file d.files ≡ true
    → RevisionFrom k (r.file_revision + 1) (replace_subscription_file k file name now d).1
replace-RevisionFrom d k file name now r v e kind other there =
    subst (RevisionFrom k (r.file_revision + 1)) (sym (replaced_rows d k file name now there))
      (record {
        assigned = omega (
          arith,
          All-find (λ s. s.id ≤ d.last_subscription) (λ s. s.id == k) d.subscriptions r e
              v.subs.bound,
          (==_iff r.id k).0 (test_of_find (λ s. s.id == k) d.subscriptions r e),
        );
        from =
            All-update_map (λ s. s.id ≡ k → s ≡ r)
              (λ s. s.id ≡ k → r.file_revision + 1 ≤ s.file_revision)
              (λ s. s.id == k && is_file s.kind) (set_file file name now) d.subscriptions
              (λ s only. raised k file name now r s kind other only)
              (only_row k r d.subscriptions v.subs.ids e);
      })

-- A fetch of a file subscription reads the row (`scan_subscription r`) in a valid database, serves the
-- file, and is recorded later. If meanwhile the file was replaced by another one that is there, and
-- whatever else was done since (also a return to the first file), recording the fetch changes no
-- current count of any subscription: it counts towards the history only.
pub fetch_across_replacement :
    (hash : Text → Text) (d : Db) (k new : ℕ) (name : Text) (t : Time) (r : SubscriptionRow)
    (cs : List (Command × Time)) (file : ℕ) (ip client agent method : Text) (status : ℕ)
    (now : Time) (j : ℕ)
    → IsValid d
    → find (λ s. s.id == k) d.subscriptions ≡ some r
    → is_file r.kind ≡ true
    → opt_eq r.file_id new ≡ false
    → has_file new d.files ≡ true
    → let later = run_all hash cs (replace_subscription_file k new name t d).1 in
      current_count j
        (record_access (scan_subscription r) file ip client agent method status now later).1
      ≡ current_count j later
unfolding scan_subscription
fetch_across_replacement hash d k new name t r cs file ip client agent method status now j v e kind
      other there =
    stale_access (scan_subscription r) file ip client agent method status now
      (run_all hash cs (replace_subscription_file k new name t d).1) j
      (run_all-Keeps (RevisionFrom-laws (scan_subscription r).id (r.file_revision + 1)) hash cs
        (replace_subscription_file k new name t d).1
        (subst
          (λ i. RevisionFrom i (r.file_revision + 1) (replace_subscription_file k new name t d).1)
          (sym ((==_iff r.id k).0 (test_of_find (λ s. s.id == k) d.subscriptions r e)))
          (replace-RevisionFrom d k new name t r v e kind other there)))
