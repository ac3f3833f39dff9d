-- ===== src/Store/Files.antt =====
-- The methods on stored files.
use sub_manager.Base.{
  ℕ, ◌==◌, leb, ◌&&◌, Option, none, some, List, [], ◌∷◌, map, Text, text_eq, find, select,
  count_where, if◌then◌else◌,
}
use sub_manager.Clock.{Time}
use sub_manager.Store.Tables.{
  SubscriptionRow, FileRow, StatRow, Db, no_rows, Result, ok, err, Exec, ◌>>=◌, expect_one, opt_eq,
}
use sub_manager.Store.Statements.{insert_file, delete_unused_file, is_pair}
use sub_manager.Store.Subscriptions.{Subscription, scan_subscription, newest_first}

pub record StoredFile : Type 0 where
  pub id : ℕ
  pub md5 : Text
  pub sha256 : Text
  pub size : ℕ
  pub content_type : Text
  pub storage_key : Text
  pub original_name : Text
  pub download_count : ℕ
  pub last_downloaded_at : Option Time
  pub last_downloaded_ip : Text
  pub association_count : ℕ
  pub created_at : Time
  pub updated_at : Time

-- SELECT COUNT(*) FROM subscriptions s WHERE s.file_id = f.id
unfoldable pub association_count : ℕ → List SubscriptionRow → ℕ
association_count file subs = count_where (λ s. opt_eq s.file_id file) subs

unfoldable pub scan_stored_file : List SubscriptionRow → FileRow → StoredFile
scan_stored_file subs f = record {
  id = f.id;
  md5 = f.md5;
  sha256 = f.sha256;
  size = f.size;
  content_type = f.content_type;
  storage_key = f.storage_key;
  original_name = f.original_name;
  download_count = f.download_count;
  last_downloaded_at = f.last_downloaded_at;
  last_downloaded_ip = f.last_downloaded_ip;
  association_count = association_count f.id subs;
  created_at = f.created_at;
  updated_at = f.updated_at;
}

abbrev pub scan_file : List SubscriptionRow → Option FileRow → Result StoredFile
scan_file subs none = err no_rows
scan_file subs (some f) = ok (scan_stored_file subs f)

unfoldable pub file_by_id : ℕ → Db → Result StoredFile
file_by_id id d = scan_file d.subscriptions (find (λ f. f.id == id) d.files)

unfoldable pub file_by_digests : Text → Text → Db → Result StoredFile
file_by_digests md5 sha256 d =
    scan_file d.subscriptions (find (λ f. text_eq f.md5 md5 && text_eq f.sha256 sha256) d.files)

unfoldable pub file_by_sha256 : Text → Db → Result StoredFile
file_by_sha256 sha256 d = scan_file d.subscriptions (find (λ f. text_eq f.sha256 sha256) d.files)

abbrev pub new_file : Text → Text → ℕ → Text → Text → Text → Time → ℕ → FileRow
new_file md5 sha256 size content_type storage_key original_name now id = record {
  id = id;
  md5 = md5;
  sha256 = sha256;
  size = size;
  content_type = content_type;
  storage_key = storage_key;
  original_name = original_name;
  download_count = 0;
  last_downloaded_at = none;
  last_downloaded_ip = [];
  created_at = now;
  updated_at = now;
}

unfoldable pub create_file : Text → Text → ℕ → Text → Text → Text → Time → Exec StoredFile
create_file md5 sha256 size content_type storage_key original_name now = do
  id ← insert_file (new_file md5 sha256 size content_type storage_key original_name now)
  λ d. (file_by_id id d, d)

-- ORDER BY f.id DESC
unfoldable pub insert_file_by_id : FileRow → List FileRow → List FileRow
insert_file_by_id f [] = f ∷ []
insert_file_by_id f (g ∷ gs) =
    let rest = insert_file_by_id f gs in if leb g.id f.id then f ∷ g ∷ gs else g ∷ rest

unfoldable pub newest_files : List FileRow → List FileRow
newest_files [] = []
newest_files (f ∷ fs) = insert_file_by_id f (newest_files fs)

unfoldable pub list_files : Db → List StoredFile
list_files d = map (scan_stored_file d.subscriptions) (newest_files d.files)

pub record FileAssociation : Type 0 where
  pub subscription : Subscription
  pub download_count : ℕ
  pub last_fetched_at : Option Time
  pub last_fetched_ip : Text

-- The columns of the LEFT JOIN; the pair is a primary key, so one row at most matches.
abbrev join_stat : Subscription → Option StatRow → FileAssociation
join_stat s none = record {
  subscription = s;
  download_count = 0;
  last_fetched_at = none;
  last_fetched_ip = [];
}
join_stat s (some t) = record {
  subscription = s;
  download_count = t.download_count;
  last_fetched_at = some t.last_downloaded_at;
  last_fetched_ip = t.last_downloaded_ip;
}

unfoldable pub file_associations : ℕ → Db → List FileAssociation
file_associations file d =
    map (λ s. join_stat (scan_subscription s) (find (is_pair file s.id) d.stats))
      (newest_first (select (λ s. opt_eq s.file_id file) d.subscriptions))

unfoldable pub delete_file : ℕ → Exec (Unit {0})
delete_file id = do count ← delete_unused_file id; expect_one count
