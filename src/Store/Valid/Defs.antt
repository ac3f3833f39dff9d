-- ===== src/Store/Valid/Defs.antt =====
-- What holds of the tables of internal/app/store.go between two methods.
use sub_manager.Base.{ℕ, ◌≤◌, ◌≡◌, Bool, true, false, none, some, List, if◌then◌else◌}
use sub_manager.Base.Rows.{All, Unique}
use sub_manager.Store.{
  is_file, SubscriptionRow, FileRow, StatRow, LogRow, Db, has_file, has_subscription, file_ref_ok,
  Exec,
}

-- A text subscription has no file.
abbrev pub kind_ok : SubscriptionRow → Bool
kind_ok s = if is_file s.kind then true else elim s.file_id [ none ↦ true | some f ↦ false ]

pub record SubscriptionsValid (subs : List SubscriptionRow) (last : ℕ) : Type 0 where
  pub ids : Unique (λ s. s.id) subs
  pub bound : All (λ s. s.id ≤ last) subs
  pub paths : Unique (λ s. s.path) subs
  pub kinds : All (λ s. kind_ok s ≡ true) subs
  pub counts : All (λ s. s.current_fetch_count ≤ s.fetch_count) subs

pub record FilesValid (files : List FileRow) (last : ℕ) : Type 0 where
  pub ids : Unique (λ f. f.id) files
  pub bound : All (λ f. f.id ≤ last) files
  pub digests : Unique (λ f. f.sha256) files
  pub keys : Unique (λ f. f.storage_key) files

abbrev pub StatRef : List SubscriptionRow → List FileRow → StatRow → Type 0
StatRef subs files t =
    (has_file t.file_id files ≡ true) × (has_subscription t.subscription_id subs ≡ true)

abbrev pub LogRef : List SubscriptionRow → List FileRow → LogRow → Type 0
LogRef subs files l =
    (has_subscription l.subscription_id subs ≡ true) × (file_ref_ok l.file_id files ≡ true)

-- Every reference names a row that is there.
pub record RefsValid (subs : List SubscriptionRow) (files : List FileRow) (stats : List StatRow)
    (logs : List LogRow) : Type 0 where
  pub sub_files : All (λ s. file_ref_ok s.file_id files ≡ true) subs
  pub stat_rows : All (StatRef subs files) stats
  pub log_rows : All (LogRef subs files) logs

abbrev pub pair_key : StatRow → ℕ × ℕ
pair_key t = (t.file_id, t.subscription_id)

pub record IsValid (d : Db) : Type 0 where
  pub subs : SubscriptionsValid d.subscriptions d.last_subscription
  pub files : FilesValid d.files d.last_file
  pub refs : RefsValid d.subscriptions d.files d.stats d.logs
  pub pairs : Unique pair_key d.stats

-- A method keeps a property of the database, whether it succeeds or fails.
pub record Keeps (P : Db → Type 0) {A : Type 0} (m : Exec A) : Type 0 where
  pub at : (d : Db) → P d → P (m d).1
