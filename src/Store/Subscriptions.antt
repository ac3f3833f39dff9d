-- ===== src/Store/Subscriptions.antt =====
-- The methods on subscriptions. The instant of `time.Now()` is the argument `now`.
use sub_manager.Base.{
  ℕ, ◌==◌, leb, Bool, true, false, not, ◌&&◌, ◌||◌, Option, none, some, List, [], ◌∷◌, map, Text,
  length, exists, find, select, count_where, text_eq, if◌then◌else◌,
}
use sub_manager.Clock.{Time}
use sub_manager.Store.Tables.{
  SubscriptionType, text_subscription, file_subscription, is_file, SubscriptionRow, Db, no_rows,
  none_selected, batch_mismatch, Result, ok, err, Exec, ◌>>=◌, ◌>>◌, pure, raise, raise_if,
  transaction, expect_one,
}
use sub_manager.Store.Statements.{
  update_subscriptions, update_subscription_path, insert_subscription, delete_subscription_row,
}

-- The struct `Subscription`: the file is 0 where the column is NULL.
pub record Subscription : Type 0 where
  pub id : ℕ
  pub name : Text
  pub path : Text
  pub content : Text
  pub kind : SubscriptionType
  pub file_id : ℕ
  pub download_name : Text
  pub enabled : Bool
  pub fetch_count : ℕ
  pub current_fetch_count : ℕ
  pub file_revision : ℕ
  pub last_fetched_at : Option Time
  pub last_fetched_ip : Text
  pub created_at : Time
  pub updated_at : Time

-- COALESCE(file_id, 0)
abbrev pub or_zero : Option ℕ → ℕ
or_zero none = 0
or_zero (some k) = k

unfoldable pub scan_subscription : SubscriptionRow → Subscription
scan_subscription s = record {
  id = s.id;
  name = s.name;
  path = s.path;
  content = s.content;
  kind = s.kind;
  file_id = or_zero s.file_id;
  download_name = s.download_name;
  enabled = s.enabled;
  fetch_count = s.fetch_count;
  current_fetch_count = s.current_fetch_count;
  file_revision = s.file_revision;
  last_fetched_at = s.last_fetched_at;
  last_fetched_ip = s.last_fetched_ip;
  created_at = s.created_at;
  updated_at = s.updated_at;
}

abbrev scan_one : Option SubscriptionRow → Result Subscription
scan_one none = err no_rows
scan_one (some s) = ok (scan_subscription s)

-- ORDER BY id DESC
unfoldable pub insert_by_id : SubscriptionRow → List SubscriptionRow → List SubscriptionRow
insert_by_id s [] = s ∷ []
insert_by_id s (t ∷ ts) =
    let rest = insert_by_id s ts in if leb t.id s.id then s ∷ t ∷ ts else t ∷ rest

unfoldable pub newest_first : List SubscriptionRow → List SubscriptionRow
newest_first [] = []
newest_first (s ∷ ss) = insert_by_id s (newest_first ss)

-- `none` stands for the empty type, which lists all.
abbrev pub of_type : Option SubscriptionType → SubscriptionRow → Bool
of_type none s = true
of_type (some text_subscription) s = not (is_file s.kind)
of_type (some file_subscription) s = is_file s.kind

unfoldable pub list_subscriptions_by_type : Option SubscriptionType → Db → List Subscription
list_subscriptions_by_type kind d =
    map scan_subscription (newest_first (select (of_type kind) d.subscriptions))

unfoldable pub list_subscriptions : Db → List Subscription
list_subscriptions d = list_subscriptions_by_type none d

unfoldable pub subscription_by_id : ℕ → Db → Result Subscription
subscription_by_id id d = scan_one (find (λ s. s.id == id) d.subscriptions)

unfoldable pub subscription_by_path : Text → Db → Result Subscription
subscription_by_path path d =
    scan_one (find (λ s. text_eq s.path path && s.enabled) d.subscriptions)

unfoldable pub create_subscription : Text → Text → Text → Bool → Time → Exec ℕ
create_subscription name path content enabled now = insert_subscription λ id. record {
  id = id;
  name = name;
  path = path;
  content = content;
  kind = text_subscription;
  file_id = none;
  download_name = [];
  enabled = enabled;
  fetch_count = 0;
  current_fetch_count = 0;
  file_revision = 0;
  last_fetched_at = none;
  last_fetched_ip = [];
  created_at = now;
  updated_at = now;
}

unfoldable pub create_file_subscription : Text → Text → ℕ → Text → Bool → Time → Exec ℕ
create_file_subscription name path file_id download_name enabled now = insert_subscription λ id.
    record {
      id = id;
      name = name;
      path = path;
      content = [];
      kind = file_subscription;
      file_id = some file_id;
      download_name = download_name;
      enabled = enabled;
      fetch_count = 0;
      current_fetch_count = 0;
      file_revision = 0;
      last_fetched_at = none;
      last_fetched_ip = [];
      created_at = now;
      updated_at = now;
    }

abbrev pub set_text : Text → Text → Text → Bool → Time → SubscriptionRow → SubscriptionRow
set_text name path content enabled now s = record s {
  name = name;
  path = path;
  content = content;
  enabled = enabled;
  updated_at = now;
}

unfoldable pub update_subscription : ℕ → Text → Text → Text → Bool → Time → Exec (Unit {0})
update_subscription id name path content enabled now = do
  count ←
      update_subscription_path id path (λ s. not (is_file s.kind))
        (set_text name path content enabled now)
  expect_one count

-- `type = 'file' AND (file_id IS NOT NULL OR ? = 0)`
abbrev pub may_be : Bool → SubscriptionRow → Bool
may_be enabled s =
    is_file s.kind && (elim s.file_id [ none ↦ false | some f ↦ true ] || not enabled)

abbrev pub set_file_metadata : Text → Text → Bool → Time → SubscriptionRow → SubscriptionRow
set_file_metadata name path enabled now s = record s {
  name = name;
  path = path;
  enabled = enabled;
  updated_at = now;
}

unfoldable pub update_file_subscription : ℕ → Text → Text → Bool → Time → Exec (Unit {0})
update_file_subscription id name path enabled now = do
  count ←
      update_subscription_path id path (may_be enabled) (set_file_metadata name path enabled now)
  expect_one count

unfoldable pub delete_subscription : ℕ → Exec (Unit {0})
delete_subscription id = do count ← delete_subscription_row id; expect_one count

abbrev pub set_enabled : Bool → Time → SubscriptionRow → SubscriptionRow
set_enabled enabled now s = record s { enabled = enabled; updated_at = now }

unfoldable pub set_subscription_enabled : ℕ → Bool → Time → Exec (Unit {0})
set_subscription_enabled id enabled now = do
  count ← update_subscriptions (λ s. s.id == id) (set_enabled enabled now)
  expect_one count

abbrev pub is_member : ℕ → List ℕ → Bool
is_member k ids = exists (λ i. i == k) ids

abbrev pub no_ids : List ℕ → Bool
no_ids [] = true
no_ids (i ∷ ids) = false

abbrev pub selected_text : List ℕ → SubscriptionRow → Bool
selected_text ids s = not (is_file s.kind) && is_member s.id ids

abbrev pub set_content : Text → Time → SubscriptionRow → SubscriptionRow
set_content content now s = record s { content = content; updated_at = now }

-- SELECT COUNT(*) FROM subscriptions WHERE type = 'text' AND id IN (…)
abbrev pub count_text : List ℕ → Exec ℕ
count_text ids d = (ok (count_where (selected_text ids) d.subscriptions), d)

-- The body of the transaction.
unfoldable pub batch_body : List ℕ → Text → Time → Exec ℕ
batch_body ids content now = do
  existing ← count_text ids
  raise_if (not (existing == length ids)) no_rows
  updated ← update_subscriptions (selected_text ids) (set_content content now)
  raise_if (not (updated == length ids)) batch_mismatch
  pure updated

unfoldable pub batch_update_content : List ℕ → Text → Time → Exec ℕ
batch_update_content ids content now =
    if no_ids ids then raise none_selected else transaction (batch_body ids content now)
