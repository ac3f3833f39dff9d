-- ===== src/Store/Valid/Updates.antt =====
-- The UPDATE statements on `subscriptions` keep the database valid.
use sub_manager.Base.{
  ℕ, ◌≤◌, subst, ◌≡◌, ◌∙◌, ◌≢◌, refl, sym, Bool, true, false, not, ◌&&◌, ◌==◌, ◌⊎◌, inl, inr, none,
  some, List, [], ◌∷◌, Text, text_eq, text_eq_iff, exists, update_where, arith, if◌then◌else◌,
  Bool-cases,
}
use sub_manager.Base.Rows.{Fresh, Unique, All-map, All-update, Unique-update, exists-update}
use sub_manager.Store.{
  SubscriptionRow, FileRow, StatRow, LogRow, Db, has_file, has_subscription, file_ref_ok,
  update_subscriptions, update_subscription_path, update_subscription_file,
}
use sub_manager.Store.Valid.Defs.{
  kind_ok, SubscriptionsValid, StatRef, LogRef, RefsValid, IsValid, Keeps,
}

-- What an update that sets no id does to a row that it hits.
pub record RowStep (p : SubscriptionRow → Bool) (f : SubscriptionRow → SubscriptionRow)
    : Type 0 where
  pub same_id : (s : SubscriptionRow) → (f s).id ≡ s.id
  pub kind : (s : SubscriptionRow) → p s ≡ true → kind_ok s ≡ true → kind_ok (f s) ≡ true
  pub counts :
      (s : SubscriptionRow)
      → s.current_fetch_count ≤ s.fetch_count
      → (f s).current_fetch_count ≤ (f s).fetch_count

module _ (p : SubscriptionRow → Bool) (f : SubscriptionRow → SubscriptionRow)
    (step : RowStep p f) where
  pub subscriptions-update :
      (subs : List SubscriptionRow) (last : ℕ)
      → Unique (λ s. s.path) (update_where p f subs)
      → SubscriptionsValid subs last
      → SubscriptionsValid (update_where p f subs) last
  subscriptions-update subs last paths v = record {
    ids = Unique-update (λ s. s.id) p f subs step.same_id v.ids;
    bound = All-update (λ s. s.id ≤ last) p f subs (λ s hit b. rw step.same_id b) v.bound;
    paths = paths;
    kinds = All-update (λ s. kind_ok s ≡ true) p f subs step.kind v.kinds;
    counts =
        All-update (λ s. s.current_fetch_count ≤ s.fetch_count) p f subs
          (λ s hit b. step.counts s b) v.counts;
  }

  same_subscriptions :
      (subs : List SubscriptionRow) (k : ℕ)
      → has_subscription k (update_where p f subs) ≡ has_subscription k subs
  same_subscriptions subs k =
      exists-update (λ s. s.id == k) p f subs (λ s. ground (arith, step.same_id s))

  pub refs-update :
      (subs : List SubscriptionRow) (files : List FileRow) (stats : List StatRow)
      (logs : List LogRow)
      → ((s : SubscriptionRow)
          → p s ≡ true
          → file_ref_ok s.file_id files ≡ true
          → file_ref_ok (f s).file_id files ≡ true)
      → RefsValid subs files stats logs
      → RefsValid (update_where p f subs) files stats logs
  refs-update subs files stats logs g v = record {
    sub_files = All-update (λ s. file_ref_ok s.file_id files ≡ true) p f subs g v.sub_files;
    stat_rows =
        All-map (StatRef subs files) (StatRef (update_where p f subs) files) stats
          (λ t h. (h.0, same_subscriptions subs t.subscription_id ∙ h.1)) v.stat_rows;
    log_rows =
        All-map (LogRef subs files) (LogRef (update_where p f subs) files) logs
          (λ l h. (same_subscriptions subs l.subscription_id ∙ h.0, h.1)) v.log_rows;
  }

  updated-IsValid :
      (d : Db)
      → Unique (λ s. s.path) (update_where p f d.subscriptions)
      → ((s : SubscriptionRow)
          → p s ≡ true
          → file_ref_ok s.file_id d.files ≡ true
          → file_ref_ok (f s).file_id d.files ≡ true)
      → IsValid d
      → IsValid (record d { subscriptions = update_where p f d.subscriptions })
  updated-IsValid d paths file v = record {
    subs = subscriptions-update d.subscriptions d.last_subscription paths v.subs;
    files = v.files;
    refs = refs-update d.subscriptions d.files d.stats d.logs file v.refs;
    pairs = v.pairs;
  }

  -- An update that leaves the path, and keeps the file or clears it.
  pub update_subscriptions-IsValid :
      ((s : SubscriptionRow) → (f s).path ≡ s.path)
      → ((s : SubscriptionRow) → ((f s).file_id ≡ s.file_id) ⊎ ((f s).file_id ≡ none))
      → Keeps IsValid (update_subscriptions p f)
  unfolding update_subscriptions
  update_subscriptions-IsValid path file = record {
    at = λ d v.
        updated-IsValid d (Unique-update (λ s. s.path) p f d.subscriptions path v.subs.paths)
          (λ s hit h. ground (arith, file s)) v;
  }

  update_none : (subs : List SubscriptionRow) → exists p subs ≡ false → update_where p f subs ≡ subs
  update_none [] h = refl
  update_none (s ∷ subs) h = ground (arith, update_none subs)

  -- An update that leaves the path and sets the file.
  pub update_subscription_file-IsValid :
      (file : ℕ)
      → ((s : SubscriptionRow) → (f s).path ≡ s.path)
      → ((s : SubscriptionRow) → (f s).file_id ≡ some file)
      → Keeps IsValid (update_subscription_file file p f)
  unfolding update_subscription_file
  update_subscription_file-IsValid file path set = record {
    at = λ d v. elim (Bool-cases (exists p d.subscriptions)) [
      | inr none_hit ↦ rw (none_hit, update_none d.subscriptions none_hit) v
      | inl hit ↦ elim (Bool-cases (has_file file d.files)) [
        | inr missing ↦ rw (hit, missing) v
        | inl there ↦
            rw (hit, there)
              (updated-IsValid d (Unique-update (λ s. s.path) p f d.subscriptions path v.subs.paths)
                (λ s h r. rw (set s) there) v)
      ]
    ];
  }

  Fresh-update :
      (id : ℕ) (subs : List SubscriptionRow)
      → ((s : SubscriptionRow) → p s ≡ true → s.id ≡ id)
      → Fresh (λ s. s.id) id subs
      → exists p subs ≡ false
  Fresh-update id [] q h = refl
  Fresh-update id (s ∷ subs) q h = ground (arith, q s, Fresh-update id subs q h.1)

  -- No row but `id` has the path: if `id` is not there, none has it.
  Fresh-path :
      (id : ℕ) (path : Text) (subs : List SubscriptionRow)
      → Fresh (λ s. s.id) id subs
      → exists (λ s. text_eq s.path path && not (s.id == id)) subs ≡ false
      → Fresh (λ s. s.path) path subs
  Fresh-path id path [] ids free = tt
  Fresh-path id path (s ∷ subs) ids free =
      (λ e. ground (arith, text_eq_iff s.path path), Fresh-path id path subs ids.1 (ground arith))

  Fresh-changed :
      (k path : Text) (subs : List SubscriptionRow)
      → ((s : SubscriptionRow) → (f s).path ≡ path)
      → k ≢ path
      → Fresh (λ s. s.path) k subs
      → Fresh (λ s. s.path) k (update_where p f subs)
  Fresh-changed k path [] set n h = tt
  Fresh-changed k path (s ∷ subs) set n h = elim (Bool-cases (p s)) [
    | inl hit ↦ (rw (hit, set s) (λ e. n (sym e)), Fresh-changed k path subs set n h.1)
    | inr miss ↦ (rw miss h.0, Fresh-changed k path subs set n h.1)
  ]

  -- The head of the table keeps a path of its own.
  path-head :
      (id : ℕ) (path : Text) (s : SubscriptionRow) (subs : List SubscriptionRow)
      → ((s : SubscriptionRow) → p s ≡ true → s.id ≡ id)
      → ((s : SubscriptionRow) → (f s).path ≡ path)
      → exists (λ s. text_eq s.path path && not (s.id == id)) (s ∷ subs) ≡ false
      → Fresh (λ s. s.id) s.id subs
      → Fresh (λ s. s.path) s.path subs
      → Fresh (λ s. s.path) (if p s then f s else s).path (update_where p f subs)
  path-head id path s subs q set free ids paths = elim (Bool-cases (s.id == id)) [
    | inl same ↦
        let e : s.id ≡ id = ground arith in
        let others : Fresh (λ s. s.id) id subs = subst (λ k. Fresh (λ s. s.id) k subs) e ids in
        rw (update_none subs (Fresh-update id subs q others)) (elim (Bool-cases (p s)) [
          | inl hit ↦ rw (hit, set s) (Fresh-path id path subs others (ground arith))
          | inr miss ↦ rw miss paths
        ])
    | inr other ↦
        let miss : p s ≡ false = ground (arith, q s) in
        rw miss
          (Fresh-changed s.path path subs set (λ e. ground (arith, text_eq_iff s.path path)) paths)
  ]

  -- Only the row `id` gets the path `path`, which no other row has.
  path-update :
      (id : ℕ) (path : Text) (subs : List SubscriptionRow)
      → ((s : SubscriptionRow) → p s ≡ true → s.id ≡ id)
      → ((s : SubscriptionRow) → (f s).path ≡ path)
      → exists (λ s. text_eq s.path path && not (s.id == id)) subs ≡ false
      → Unique (λ s. s.id) subs
      → Unique (λ s. s.path) subs
      → Unique (λ s. s.path) (update_where p f subs)
  path-update id path [] q set free ids paths = tt
  path-update id path (s ∷ subs) q set free ids paths = (
    path-head id path s subs q set free ids.0 paths.0,
    path-update id path subs q set (ground arith) ids.1 paths.1,
  )

  -- An update of the row `id` that sets the path and keeps the file.
  path-IsValid :
      (id : ℕ) (path : Text) (d : Db)
      → ((s : SubscriptionRow) → p s ≡ true → s.id ≡ id)
      → ((s : SubscriptionRow) → (f s).path ≡ path)
      → ((s : SubscriptionRow) → (f s).file_id ≡ s.file_id)
      → exists (λ s. text_eq s.path path && not (s.id == id)) d.subscriptions ≡ false
      → IsValid d
      → IsValid (record d { subscriptions = update_where p f d.subscriptions })
  path-IsValid id path d q set file free v =
      updated-IsValid d (path-update id path d.subscriptions q set free v.subs.ids v.subs.paths)
        (λ s hit h. rw (file s) h) v

module _ (id : ℕ) (path : Text) (p : SubscriptionRow → Bool) (f : SubscriptionRow → SubscriptionRow)
    (step : RowStep (λ s. s.id == id && p s) f) where
  pub update_subscription_path-IsValid :
      ((s : SubscriptionRow) → (f s).path ≡ path)
      → ((s : SubscriptionRow) → (f s).file_id ≡ s.file_id)
      → Keeps IsValid (update_subscription_path id path p f)
  unfolding update_subscription_path
  update_subscription_path-IsValid set file = record {
    at = λ d v. elim (Bool-cases (exists (λ s. s.id == id && p s) d.subscriptions)) [
      | inr none_hit ↦
          rw (none_hit, update_none (λ s. s.id == id && p s) f step d.subscriptions none_hit) v
      | inl hit ↦
          elim (Bool-cases
            (exists (λ s. text_eq s.path path && not (s.id == id)) d.subscriptions)) [
              | inl taken ↦ rw (hit, taken) v
              | inr free ↦
                  rw (hit, free)
                    (path-IsValid (λ s. s.id == id && p s) f step id path d (λ s h. ground arith)
                      set file free v)
            ]
    ];
  }
