-- ===== src/Store/Valid/FileRows.antt =====
-- The statements on `files`, the statistics and the logs keep the database valid.
use sub_manager.Base.{
  ℕ, ◌+◌, ◌≤◌, ◌≡◌, ◌∙◌, refl, subst, Bool, true, false, not, ◌&&◌, ◌==◌, Option, none, some, List,
  [], ◌∷◌, ◌++◌, text_eq, text_eq_iff, exists, update_where, delete_where, arith, if◌then◌else◌,
  Bool-cases, inl, inr,
}
use sub_manager.Base.Rows.{
  All-map, All-update, All-update_map, All-zip, All-of_exists, All-delete, All-delete_ne, All-snoc,
  Unique-update, Unique-delete, Unique-snoc, Fresh-of_exists, exists-update, exists-snoc,
  exists-delete,
}
use sub_manager.Store.{
  SubscriptionRow, FileRow, StatRow, LogRow, Db, has_file, file_ref_ok, opt_eq, uses_file,
  forget_file, update_file, insert_file, delete_unused_file,
}
use sub_manager.Store.Valid.Defs.{StatRef, LogRef, RefsValid, pair_key, IsValid, Keeps}
use sub_manager.Store.Valid.Rows.{Fresh-next, raise_bound}

-- References stay good where the files that they name stay.
refs_in :
    (subs : List SubscriptionRow) (files files' : List FileRow) (stats : List StatRow)
    (logs : List LogRow)
    → ((k : ℕ) → has_file k files ≡ true → has_file k files' ≡ true)
    → RefsValid subs files stats logs
    → RefsValid subs files' stats logs
refs_in subs files files' stats logs g v = record {
  sub_files =
      All-map (λ s. file_ref_ok s.file_id files ≡ true) (λ s. file_ref_ok s.file_id files' ≡ true)
        subs (λ s h. ref_in s.file_id h) v.sub_files;
  stat_rows =
      All-map (StatRef subs files) (StatRef subs files') stats (λ t h. (g t.file_id h.0, h.1))
        v.stat_rows;
  log_rows =
      All-map (LogRef subs files) (LogRef subs files') logs (λ l h. (h.0, ref_in l.file_id h.1))
        v.log_rows;
}
  where
    ref_in : (r : Option ℕ) → file_ref_ok r files ≡ true → file_ref_ok r files' ≡ true
    ref_in none h = refl
    ref_in (some k) h = g k h

pub update_file-IsValid :
    (id : ℕ) (f : FileRow → FileRow)
    → ((r : FileRow) → (f r).id ≡ r.id)
    → ((r : FileRow) → (f r).sha256 ≡ r.sha256)
    → ((r : FileRow) → (f r).storage_key ≡ r.storage_key)
    → Keeps IsValid (update_file id f)
unfolding update_file
update_file-IsValid id f same sha key = record {
  at = λ d v.
      let p = λ (r : FileRow). r.id == id in
      record {
        subs = v.subs;
        files = record {
          ids = Unique-update (λ r. r.id) p f d.files same v.files.ids;
          bound =
              All-update (λ r. r.id ≤ d.last_file) p f d.files (λ r h b. rw (same r) b)
                v.files.bound;
          digests = Unique-update (λ r. r.sha256) p f d.files sha v.files.digests;
          keys = Unique-update (λ r. r.storage_key) p f d.files key v.files.keys;
        };
        refs =
            refs_in d.subscriptions d.files (update_where p f d.files) d.stats d.logs
              (λ k h. exists-update (λ r. r.id == k) p f d.files (λ r. ground (arith, same r)) ∙ h)
              v.refs;
        pairs = v.pairs;
      };
}

inserted_file :
    (row : FileRow) (d : Db)
    → row.id ≡ d.last_file + 1
    → exists (λ r. text_eq r.sha256 row.sha256) d.files ≡ false
    → exists (λ r. text_eq r.storage_key row.storage_key) d.files ≡ false
    → IsValid d
    → IsValid (record d { files = d.files ++ row ∷ []; last_file = d.last_file + 1 })
inserted_file row d id sha key v = record {
  subs = v.subs;
  files = record {
    ids =
        Unique-snoc (λ r. r.id) d.files row v.files.ids
          (rw id (Fresh-next (λ r. r.id) d.last_file d.files v.files.bound));
    bound =
        All-snoc (λ r. r.id ≤ d.last_file + 1) d.files row
          (raise_bound (λ r. r.id) d.last_file d.files v.files.bound) (omega arith);
    digests =
        Unique-snoc (λ r. r.sha256) d.files row v.files.digests
          (Fresh-of_exists (λ r. r.sha256) (λ r. text_eq r.sha256 row.sha256) row.sha256 d.files
            (λ r e. (text_eq_iff r.sha256 row.sha256).1 e) sha);
    keys =
        Unique-snoc (λ r. r.storage_key) d.files row v.files.keys
          (Fresh-of_exists (λ r. r.storage_key) (λ r. text_eq r.storage_key row.storage_key)
            row.storage_key d.files (λ r e. (text_eq_iff r.storage_key row.storage_key).1 e) key);
  };
  refs =
      refs_in d.subscriptions d.files (d.files ++ row ∷ []) d.stats d.logs
        (λ k h. exists-snoc (λ r. r.id == k) d.files row h) v.refs;
  pairs = v.pairs;
}

pub insert_file-IsValid :
    (make : ℕ → FileRow) → ((id : ℕ) → (make id).id ≡ id) → Keeps IsValid (insert_file make)
unfolding insert_file
insert_file-IsValid make id = record {
  at = λ d v.
      let row = make (d.last_file + 1) in
      elim (Bool-cases (exists (λ r. text_eq r.sha256 row.sha256) d.files)) [
        | inl taken ↦ rw taken v
        | inr sha ↦
            elim (Bool-cases (exists (λ r. text_eq r.storage_key row.storage_key) d.files)) [
              | inl taken ↦ rw (sha, taken) v
              | inr key ↦ rw (sha, key) (inserted_file row d (id _) sha key v)
            ]
      ];
}

-- A file that the statement deletes is used by no subscription.
unused_of_deleted :
    (id : ℕ) (subs : List SubscriptionRow) (files : List FileRow)
    → exists (λ r. r.id == id && not (uses_file r.id subs)) files ≡ true
    → uses_file id subs ≡ false
unused_of_deleted id subs [] h = absurd (ground arith)
unused_of_deleted id subs (r ∷ files) h =
    elim (Bool-cases (r.id == id && not (uses_file r.id subs))) [
      | inl hit ↦
          let e : r.id ≡ id = ground arith in
          let u : uses_file r.id subs ≡ false = ground arith in
          subst (λ k. uses_file k subs ≡ false) e u
      | inr miss ↦ unused_of_deleted id subs files (rw miss at h)
    ]

module _ (id : ℕ) (subs : List SubscriptionRow) (files : List FileRow) where
  abbrev deleted : FileRow → Bool
  deleted r = r.id == id && not (uses_file r.id subs)

  others_stay :
      (k : ℕ)
      → (k == id) ≡ false
      → has_file k files ≡ true
      → has_file k (delete_where deleted files) ≡ true
  others_stay k n h = exists-delete (λ r. r.id == k) deleted files (λ r e. ground arith) ∙ h

  ref_stays :
      (r : Option ℕ)
      → opt_eq r id ≡ false
      → file_ref_ok r files ≡ true
      → file_ref_ok r (delete_where deleted files) ≡ true
  ref_stays none n h = refl
  ref_stays (some k) n h = others_stay k n h

  log_stays :
      (l : LogRow)
      → LogRef subs files l
      → LogRef subs
          (delete_where deleted files)
          (if opt_eq l.file_id id then forget_file id l else l)
  log_stays l h = elim (Bool-cases (opt_eq l.file_id id)) [
    | inl hit ↦ rw hit (h.0, refl)
    | inr miss ↦ rw miss (h.0, ref_stays l.file_id miss h.1)
  ]

  refs-delete :
      (stats : List StatRow) (logs : List LogRow)
      → uses_file id subs ≡ false
      → RefsValid subs files stats logs
      → RefsValid subs
          (delete_where deleted files)
          (delete_where (λ t. t.file_id == id) stats)
          (update_where (λ l. opt_eq l.file_id id) (forget_file id) logs)
  refs-delete stats logs unused v = record {
    sub_files =
        All-map (λ s. (opt_eq s.file_id id ≡ false) × (file_ref_ok s.file_id files ≡ true))
          (λ s. file_ref_ok s.file_id (delete_where deleted files) ≡ true) subs
          (λ s h. ref_stays s.file_id h.0 h.1)
          (All-zip (λ s. opt_eq s.file_id id ≡ false) (λ s. file_ref_ok s.file_id files ≡ true) subs
            (All-of_exists (λ s. opt_eq s.file_id id) subs unused) v.sub_files);
    stat_rows =
        All-delete_ne (StatRef subs (delete_where deleted files)) (λ t. t.file_id == id)
          (StatRef subs files) stats (λ t n h. (others_stay t.file_id n h.0, h.1)) v.stat_rows;
    log_rows =
        All-update_map (LogRef subs files) (LogRef subs (delete_where deleted files))
          (λ l. opt_eq l.file_id id) (forget_file id) logs log_stays v.log_rows;
  }

pub delete_unused_file-IsValid : (id : ℕ) → Keeps IsValid (delete_unused_file id)
unfolding delete_unused_file
delete_unused_file-IsValid id = record {
  at = λ d v.
      let p = deleted id d.subscriptions d.files in
      elim (Bool-cases (exists p d.files)) [
        | inr none_hit ↦ rw none_hit v
        | inl hit ↦ rw hit (record {
          subs = v.subs;
          files = record {
            ids = Unique-delete (λ r. r.id) p d.files v.files.ids;
            bound = All-delete (λ r. r.id ≤ d.last_file) p d.files v.files.bound;
            digests = Unique-delete (λ r. r.sha256) p d.files v.files.digests;
            keys = Unique-delete (λ r. r.storage_key) p d.files v.files.keys;
          };
          refs =
              refs-delete id d.subscriptions d.files d.stats d.logs
                (unused_of_deleted id d.subscriptions d.files hit) v.refs;
          pairs = Unique-delete pair_key (λ t. t.file_id == id) d.stats v.pairs;
        })
      ];
}
