-- ===== src/Store/Valid/Rows.antt =====
-- The INSERT and DELETE statements, and the updates of `files`, keep the database valid.
use sub_manager.Base.{
  ℕ, ◌+◌, ◌≤◌, ◌≡◌, ◌∙◌, refl, true, false, ◌==◌, Option, none, some, List, [], ◌∷◌, ◌++◌, text_eq,
  text_eq_iff, exists, delete_where, arith, Bool-cases, inl, inr,
}
use sub_manager.Base.Rows.{
  All, Fresh, All-map, All-delete, All-delete_ne, All-snoc, Unique-delete, Unique-snoc,
  Fresh-of_exists, exists-snoc, exists-delete,
}
use sub_manager.Store.{
  SubscriptionRow, FileRow, Db, has_subscription, file_ref_ok, insert_subscription,
  delete_subscription_row,
}
use sub_manager.Store.Valid.Defs.{kind_ok, StatRef, LogRef, pair_key, IsValid, Keeps}

-- Ids up to the counter leave the next one fresh.
pub Fresh-next {ℓ} :
    {A : Type ℓ} (key : A → ℕ) (last : ℕ) (xs : List A)
    → All (λ x. key x ≤ last) xs
    → Fresh key (last + 1) xs
Fresh-next key last [] h = tt
Fresh-next key last (x ∷ xs) h = (λ e. omega arith, Fresh-next key last xs h.1)

pub raise_bound {ℓ} :
    {A : Type ℓ} (key : A → ℕ) (last : ℕ) (xs : List A)
    → All (λ x. key x ≤ last) xs
    → All (λ x. key x ≤ last + 1) xs
raise_bound key last xs h =
    All-map (λ x. key x ≤ last) (λ x. key x ≤ last + 1) xs (λ x b. omega arith) h

pub file_ref-snoc :
    (r : Option ℕ) (files : List FileRow) (f : FileRow)
    → file_ref_ok r files ≡ true
    → file_ref_ok r (files ++ f ∷ []) ≡ true
file_ref-snoc none files f h = refl
file_ref-snoc (some k) files f h = exists-snoc (λ g. g.id == k) files f h

inserted_subscription :
    (row : SubscriptionRow) (d : Db)
    → row.id ≡ d.last_subscription + 1
    → kind_ok row ≡ true
    → row.current_fetch_count ≤ row.fetch_count
    → exists (λ s. text_eq s.path row.path) d.subscriptions ≡ false
    → file_ref_ok row.file_id d.files ≡ true
    → IsValid d
    → IsValid (record d {
      subscriptions = d.subscriptions ++ row ∷ [];
      last_subscription = d.last_subscription + 1;
    })
inserted_subscription row d id kind count free file v =
    let subs = d.subscriptions in
    record {
      subs = record {
        ids =
            Unique-snoc (λ s. s.id) subs row v.subs.ids
              (rw id (Fresh-next (λ s. s.id) d.last_subscription subs v.subs.bound));
        bound =
            All-snoc (λ s. s.id ≤ d.last_subscription + 1) subs row
              (raise_bound (λ s. s.id) d.last_subscription subs v.subs.bound) (omega arith);
        paths =
            Unique-snoc (λ s. s.path) subs row v.subs.paths
              (Fresh-of_exists (λ s. s.path) (λ s. text_eq s.path row.path) row.path subs
                (λ s e. (text_eq_iff s.path row.path).1 e) free);
        kinds = All-snoc (λ s. kind_ok s ≡ true) subs row v.subs.kinds kind;
        counts = All-snoc (λ s. s.current_fetch_count ≤ s.fetch_count) subs row v.subs.counts count;
      };
      files = v.files;
      refs = record {
        sub_files =
            All-snoc (λ s. file_ref_ok s.file_id d.files ≡ true) subs row v.refs.sub_files file;
        stat_rows =
            All-map (StatRef subs d.files) (StatRef (subs ++ row ∷ []) d.files) d.stats
              (λ t h. (h.0, exists-snoc (λ s. s.id == t.subscription_id) subs row h.1))
              v.refs.stat_rows;
        log_rows =
            All-map (LogRef subs d.files) (LogRef (subs ++ row ∷ []) d.files) d.logs
              (λ l h. (exists-snoc (λ s. s.id == l.subscription_id) subs row h.0, h.1))
              v.refs.log_rows;
      };
      pairs = v.pairs;
    }

pub insert_subscription-IsValid :
    (make : ℕ → SubscriptionRow)
    → ((id : ℕ) → (make id).id ≡ id)
    → ((id : ℕ) → kind_ok (make id) ≡ true)
    → ((id : ℕ) → (make id).current_fetch_count ≤ (make id).fetch_count)
    → Keeps IsValid (insert_subscription make)
unfolding insert_subscription
insert_subscription-IsValid make id kind count = record {
  at = λ d v.
      let row = make (d.last_subscription + 1) in
      elim (Bool-cases (exists (λ s. text_eq s.path row.path) d.subscriptions)) [
        | inl taken ↦ rw taken v
        | inr free ↦ elim (Bool-cases (file_ref_ok row.file_id d.files)) [
          | inr missing ↦ rw (free, missing) v
          | inl there ↦
              rw (free, there) (inserted_subscription row d (id _) (kind _) (count _) free there v)
        ]
      ];
}

pub delete_subscription_row-IsValid : (id : ℕ) → Keeps IsValid (delete_subscription_row id)
unfolding delete_subscription_row
delete_subscription_row-IsValid id = record {
  at = λ d v.
      let p = λ (s : SubscriptionRow). s.id == id in
      let subs' = delete_where p d.subscriptions in
      record {
        subs = record {
          ids = Unique-delete (λ s. s.id) p d.subscriptions v.subs.ids;
          bound = All-delete (λ s. s.id ≤ d.last_subscription) p d.subscriptions v.subs.bound;
          paths = Unique-delete (λ s. s.path) p d.subscriptions v.subs.paths;
          kinds = All-delete (λ s. kind_ok s ≡ true) p d.subscriptions v.subs.kinds;
          counts =
              All-delete (λ s. s.current_fetch_count ≤ s.fetch_count) p d.subscriptions
                v.subs.counts;
        };
        files = v.files;
        refs = record {
          sub_files =
              All-delete (λ s. file_ref_ok s.file_id d.files ≡ true) p d.subscriptions
                v.refs.sub_files;
          stat_rows =
              All-delete_ne (StatRef subs' d.files) (λ t. t.subscription_id == id)
                (StatRef d.subscriptions d.files) d.stats
                (λ t n h. (h.0, others_stay id t.subscription_id d.subscriptions n h.1))
                v.refs.stat_rows;
          log_rows =
              All-delete_ne (LogRef subs' d.files) (λ l. l.subscription_id == id)
                (LogRef d.subscriptions d.files) d.logs
                (λ l n h. (others_stay id l.subscription_id d.subscriptions n h.0, h.1))
                v.refs.log_rows;
        };
        pairs = Unique-delete pair_key (λ t. t.subscription_id == id) d.stats v.pairs;
      };
}
  where
    others_stay :
        (id k : ℕ) (subs : List SubscriptionRow)
        → (k == id) ≡ false
        → has_subscription k subs ≡ true
        → has_subscription k (delete_where (λ s. s.id == id) subs) ≡ true
    others_stay id k subs n h =
        exists-delete (λ s. s.id == k) (λ s. s.id == id) subs (λ s e. ground arith) ∙ h
