-- ===== src/Store/Statements.antt =====
-- The SQL statements, each with the constraints that SQLite checks for it.
use sub_manager.Base.{
  ℕ, ◌+◌, ◌==◌, Bool, not, ◌&&◌, ◌||◌, none, [], ◌∷◌, ◌++◌, Text, text_eq, exists, count_where,
  update_where, delete_where, if◌then◌else◌,
}
use sub_manager.Store.Tables.{
  SubscriptionRow, FileRow, StatRow, LogRow, unique_failed, foreign_key_failed, ok, err, Exec,
  opt_eq, has_file, has_subscription, uses_file, file_ref_ok,
}

-- UPDATE subscriptions SET … WHERE …, where no column of a constraint is set.
unfoldable pub update_subscriptions :
    (SubscriptionRow → Bool) → (SubscriptionRow → SubscriptionRow) → Exec ℕ
update_subscriptions p f d = (
  ok (count_where p d.subscriptions),
  record d { subscriptions = update_where p f d.subscriptions },
)

-- The same by id, where the path is set to `path`: UNIQUE fails if another row has it.
unfoldable pub update_subscription_path :
    ℕ → Text → (SubscriptionRow → Bool) → (SubscriptionRow → SubscriptionRow) → Exec ℕ
update_subscription_path id path p f d =
    let q = λ (s : SubscriptionRow). s.id == id && p s in
    if exists q d.subscriptions
      && exists (λ s. text_eq s.path path && not (s.id == id)) d.subscriptions
    then (err unique_failed, d)
    else (
      ok (count_where q d.subscriptions),
      record d { subscriptions = update_where q f d.subscriptions },
    )

-- The same, where the file is set to `file`: the foreign key fails if it is not there.
unfoldable pub update_subscription_file :
    ℕ → (SubscriptionRow → Bool) → (SubscriptionRow → SubscriptionRow) → Exec ℕ
update_subscription_file file p f d =
    if exists p d.subscriptions && not (has_file file d.files)
    then (err foreign_key_failed, d)
    else (
      ok (count_where p d.subscriptions),
      record d { subscriptions = update_where p f d.subscriptions },
    )

-- INSERT INTO subscriptions, with the id that is to be assigned given to the row; it is returned.
unfoldable pub insert_subscription : (ℕ → SubscriptionRow) → Exec ℕ
insert_subscription make d =
    let id = d.last_subscription + 1 in
    let row = make id in
    if exists (λ s. text_eq s.path row.path) d.subscriptions
    then (err unique_failed, d)
    else if not (file_ref_ok row.file_id d.files)
    then (err foreign_key_failed, d)
    else (ok id, record d { subscriptions = d.subscriptions ++ row ∷ []; last_subscription = id })

-- DELETE FROM subscriptions WHERE id = ?, with its logs and statistics by ON DELETE CASCADE.
unfoldable pub delete_subscription_row : ℕ → Exec ℕ
delete_subscription_row id d = (
  ok (count_where (λ s. s.id == id) d.subscriptions),
  record d {
    subscriptions = delete_where (λ s. s.id == id) d.subscriptions;
    stats = delete_where (λ t. t.subscription_id == id) d.stats;
    logs = delete_where (λ l. l.subscription_id == id) d.logs;
  },
)

-- UPDATE files SET … WHERE id = ?
unfoldable pub update_file : ℕ → (FileRow → FileRow) → Exec ℕ
update_file id f d = (
  ok (count_where (λ r. r.id == id) d.files),
  record d { files = update_where (λ r. r.id == id) f d.files },
)

unfoldable pub insert_file : (ℕ → FileRow) → Exec ℕ
insert_file make d =
    let id = d.last_file + 1 in
    let row = make id in
    if exists (λ r. text_eq r.sha256 row.sha256) d.files
      || exists (λ r. text_eq r.storage_key row.storage_key) d.files
    then (err unique_failed, d)
    else (ok id, record d { files = d.files ++ row ∷ []; last_file = id })

-- ON DELETE SET NULL for the logs.
abbrev pub forget_file : ℕ → LogRow → LogRow
forget_file id l = record l { file_id = none }

-- DELETE FROM files WHERE id = ? AND NOT EXISTS (a subscription that has it).
unfoldable pub delete_unused_file : ℕ → Exec ℕ
delete_unused_file id d =
    let p = λ (r : FileRow). r.id == id && not (uses_file r.id d.subscriptions) in
    if exists p d.files
    then (
      ok (count_where p d.files),
      record d {
        files = delete_where p d.files;
        stats = delete_where (λ t. t.file_id == id) d.stats;
        logs = update_where (λ l. opt_eq l.file_id id) (forget_file id) d.logs;
      },
    )
    else (ok 0, d)

abbrev pub is_pair : ℕ → ℕ → StatRow → Bool
is_pair file sub t = t.file_id == file && t.subscription_id == sub

-- INSERT INTO file_subscription_stats … ON CONFLICT(file_id, subscription_id) DO UPDATE.
unfoldable pub upsert_stat : StatRow → (StatRow → StatRow) → Exec (Unit {0})
upsert_stat row f d =
    if not (has_file row.file_id d.files && has_subscription row.subscription_id d.subscriptions)
    then (err foreign_key_failed, d)
    else if exists (is_pair row.file_id row.subscription_id) d.stats
    then (
      ok tt,
      record d { stats = update_where (is_pair row.file_id row.subscription_id) f d.stats },
    )
    else (ok tt, record d { stats = d.stats ++ row ∷ [] })

unfoldable pub insert_log : (ℕ → LogRow) → Exec (Unit {0})
insert_log make d =
    let id = d.last_log + 1 in
    let row = make id in
    if not (has_subscription row.subscription_id d.subscriptions && file_ref_ok row.file_id d.files)
    then (err foreign_key_failed, d)
    else (ok tt, record d { logs = d.logs ++ row ∷ []; last_log = id })

-- DELETE FROM access_logs WHERE …
unfoldable pub delete_logs : (LogRow → Bool) → Exec ℕ
delete_logs p d = (ok (count_where p d.logs), record d { logs = delete_where p d.logs })
