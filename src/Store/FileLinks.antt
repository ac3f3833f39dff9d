-- ===== src/Store/FileLinks.antt =====
-- The methods that set, move and clear the file of a subscription.
use sub_manager.Base.{ℕ, ◌+◌, ◌==◌, Bool, false, not, ◌&&◌, none, some, [], Text, if◌then◌else◌}
use sub_manager.Clock.{Time}
use sub_manager.Store.Tables.{
  is_file, SubscriptionRow, no_rows, no_file_associations, Exec, ◌>>=◌, ◌>>◌, pure, raise_if,
  transaction, expect_one, opt_eq, has_file,
}
use sub_manager.Store.Statements.{update_subscriptions, update_subscription_file}

-- `file_id IS ?` keeps the count and the revision.
abbrev pub set_file : ℕ → Text → Time → SubscriptionRow → SubscriptionRow
set_file file name now s = record s {
  current_fetch_count = if opt_eq s.file_id file then s.current_fetch_count else 0;
  file_revision = s.file_revision + (if opt_eq s.file_id file then 0 else 1);
  file_id = some file;
  download_name = name;
  updated_at = now;
}

unfoldable pub replace_subscription_file : ℕ → ℕ → Text → Time → Exec (Unit {0})
replace_subscription_file id file name now = do
  count ← update_subscription_file file (λ s. s.id == id && is_file s.kind) (set_file file name now)
  expect_one count

abbrev pub move_file : ℕ → Text → Time → SubscriptionRow → SubscriptionRow
move_file file name now s = record s {
  file_id = some file;
  download_name = name;
  current_fetch_count = 0;
  file_revision = s.file_revision + 1;
  updated_at = now;
}

abbrev pub linked_to : ℕ → SubscriptionRow → Bool
linked_to file s = is_file s.kind && opt_eq s.file_id file

-- SELECT 1 FROM files WHERE id = ?
abbrev pub require_file : ℕ → Exec (Unit {0})
require_file id d = raise_if (not (has_file id d.files)) no_rows d

unfoldable pub move_associations : ℕ → ℕ → Text → Time → Exec ℕ
move_associations old new name now = do
  count ← update_subscription_file new (linked_to old) (move_file new name now)
  raise_if (count == 0) no_file_associations
  pure count

unfoldable pub replace_file_associations : ℕ → ℕ → Text → Time → Exec ℕ
unfolding move_associations
replace_file_associations old new name now = transaction (do
  require_file old
  require_file new
  if old == new then pure 0 else move_associations old new name now)

abbrev pub clear_file : Time → SubscriptionRow → SubscriptionRow
clear_file now s = record s {
  file_id = none;
  download_name = [];
  enabled = false;
  current_fetch_count = 0;
  file_revision = s.file_revision + 1;
  updated_at = now;
}

unfoldable pub detach_subscription_file : ℕ → Time → Exec (Unit {0})
detach_subscription_file id now = do
  count ← update_subscriptions (λ s. s.id == id && is_file s.kind) (clear_file now)
  expect_one count
