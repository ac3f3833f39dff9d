-- ===== src/Store/Access.antt =====
-- Recording fetches, and the access logs.
use sub_manager.Base.{
  ℕ, ◌+◌, ◌-◌, ◌*◌, ◌/◌, ◌%◌, ◌^◌, ◌==◌, ltb, leb, Bool, true, false, ◌&&◌, ◌||◌, Option, none,
  some, List, [], ◌∷◌, ◌++◌, map, Text, length, take, drop, select, is_empty, text_eq,
  if◌then◌else◌,
}
use sub_manager.Clock.{Time, add_duration, days_back, db_time, db_time_lt}
use sub_manager.Store.Tables.{
  is_file, SubscriptionRow, FileRow, StatRow, LogRow, Db, Exec, ◌>>=◌, ◌>>◌, pure, transaction,
  expect_one, opt_eq,
}
use sub_manager.Store.Statements.{
  update_subscriptions, update_file, upsert_stat, insert_log, delete_logs,
}
use sub_manager.Store.Subscriptions.{Subscription, or_zero}

-- The fetch counts only if the row still has the file and the revision that were served.
abbrev pub still_current : ℕ → ℕ → SubscriptionRow → Bool
still_current file revision s =
    is_file s.kind && opt_eq s.file_id file && s.file_revision == revision

abbrev pub count_fetch : ℕ → ℕ → Time → Text → SubscriptionRow → SubscriptionRow
count_fetch file revision now ip s = record s {
  fetch_count = s.fetch_count + 1;
  current_fetch_count = s.current_fetch_count + (if still_current file revision s then 1 else 0);
  last_fetched_at = some now;
  last_fetched_ip = ip;
}

abbrev pub count_download : Time → Text → FileRow → FileRow
count_download now ip f = record f {
  download_count = f.download_count + 1;
  last_downloaded_at = some now;
  last_downloaded_ip = ip;
  updated_at = now;
}

abbrev pub first_stat : ℕ → ℕ → Time → Text → StatRow
first_stat file sub now ip = record {
  file_id = file;
  subscription_id = sub;
  download_count = 1;
  last_downloaded_at = now;
  last_downloaded_ip = ip;
}

abbrev pub count_stat : Time → Text → StatRow → StatRow
count_stat now ip t = record t {
  download_count = t.download_count + 1;
  last_downloaded_at = now;
  last_downloaded_ip = ip;
}

-- What is done for the file, if one was served.
unfoldable pub record_file : ℕ → ℕ → Time → Text → Exec (Unit {0})
record_file file sub now ip = do
  count ← update_file file (count_download now ip)
  expect_one count
  upsert_stat (first_stat file sub now ip) (count_stat now ip)

-- A file id of 0 stands for none.
abbrev pub nullable : ℕ → Option ℕ
nullable file = if ltb 0 file then some file else none

abbrev pub access_row : ℕ → ℕ → Text → Text → Text → Text → ℕ → Time → ℕ → LogRow
access_row sub file ip client user_agent method status now id = record {
  id = id;
  subscription_id = sub;
  file_id = nullable file;
  requested_at = now;
  client_ip = ip;
  client_name = client;
  user_agent = user_agent;
  method = method;
  status_code = status;
}

-- The body of the transaction.
unfoldable pub access_body :
    Subscription → ℕ → Text → Text → Text → Text → ℕ → Time → Exec (Unit {0})
access_body sub file ip client user_agent method status now = do
  count ← update_subscriptions (λ s. s.id == sub.id) (count_fetch file sub.file_revision now ip)
  expect_one count
  (if ltb 0 file then record_file file sub.id now ip else pure tt)
  insert_log (access_row sub.id file ip client user_agent method status now)

unfoldable pub record_access :
    Subscription → ℕ → Text → Text → Text → Text → ℕ → Time → Exec (Unit {0})
record_access sub file ip client user_agent method status now =
    transaction (access_body sub file ip client user_agent method status now)

-- `pattern` of LIKE against a text: `%` stands for any characters, `_` for one, and ASCII letters
-- match in both cases.
abbrev fold_case : ℕ → ℕ
fold_case c = if leb b'A' c && leb c b'Z' then c + 32 else c

unfoldable pub any_suffix : (Text → Bool) → Text → Bool
any_suffix f [] = f []
any_suffix f (c ∷ s) = f (c ∷ s) || any_suffix f s

abbrev one_more : (Text → Bool) → (ℕ → Bool) → Text → Bool
one_more f ok_char [] = false
one_more f ok_char (c ∷ s) = ok_char c && f s

unfoldable pub like : Text → Text → Bool
like [] s = is_empty s
like (p ∷ ps) s =
    if p == b'%'
    then any_suffix (like ps) s
    else one_more (like ps) (λ c. p == b'_' || fold_case p == fold_case c) s

-- The WHERE clause of `AccessLogs`: each filter only if it is not empty.
unfoldable pub log_matches : ℕ → Text → Text → LogRow → Bool
log_matches sub ip client l =
    l.subscription_id == sub
    && (is_empty ip || like (b'%' ∷ (ip ++ b'%' ∷ [])) l.client_ip)
    && (is_empty client || text_eq l.client_name client)

-- ORDER BY requested_at DESC, id DESC; the times are compared as texts.
unfoldable pub log_before : LogRow → LogRow → Bool
log_before a b =
    if db_time_lt (db_time b.requested_at) (db_time a.requested_at)
    then true
    else if db_time_lt (db_time a.requested_at) (db_time b.requested_at)
    then false
    else leb b.id a.id

unfoldable pub insert_log_sorted : LogRow → List LogRow → List LogRow
insert_log_sorted l [] = l ∷ []
insert_log_sorted l (m ∷ ms) =
    let rest = insert_log_sorted l ms in if log_before l m then l ∷ m ∷ ms else m ∷ rest

unfoldable pub sort_logs : List LogRow → List LogRow
sort_logs [] = []
sort_logs (l ∷ ls) = insert_log_sorted l (sort_logs ls)

pub record AccessLog : Type 0 where
  pub id : ℕ
  pub subscription_id : ℕ
  pub file_id : ℕ
  pub requested_at : Time
  pub client_ip : Text
  pub client_name : Text
  pub user_agent : Text
  pub method : Text
  pub status_code : ℕ

abbrev pub scan_log : LogRow → AccessLog
scan_log l = record {
  id = l.id;
  subscription_id = l.subscription_id;
  file_id = or_zero l.file_id;
  requested_at = l.requested_at;
  client_ip = l.client_ip;
  client_name = l.client_name;
  user_agent = l.user_agent;
  method = l.method;
  status_code = l.status_code;
}

pub record LogPage : Type 0 where
  pub logs : List AccessLog
  pub total : ℕ
  pub page : ℕ
  pub page_size : ℕ
  pub total_pages : ℕ

-- A page below 1 is the first; a number below 0 reads as 0 here.
abbrev pub clamp_page : ℕ → ℕ
clamp_page page = if ltb page 1 then 1 else page

abbrev pub clamp_page_size : ℕ → ℕ
clamp_page_size size = if ltb size 1 || ltb 200 size then 50 else size

-- `(page-1)*pageSize` on int64; SQLite takes a negative OFFSET for 0.
unfoldable pub log_offset : ℕ → ℕ → ℕ
log_offset page size = let n = ((page - 1) * size) % 2 ^ 64 in if ltb n (2 ^ 63) then n else 0

unfoldable pub access_logs : ℕ → ℕ → ℕ → Text → Text → Db → LogPage
access_logs sub page size ip client d =
    let page' = clamp_page page in
    let size' = clamp_page_size size in
    let matching = select (log_matches sub ip client) d.logs in
    let total = length matching in
    record {
      logs = map scan_log (take size' (drop (log_offset page' size') (sort_logs matching)));
      total = total;
      page = page';
      page_size = size';
      total_pages = if ltb 0 total then (total + size' - 1) / size' else 0;
    }

unfoldable pub clear_access_logs : ℕ → Exec ℕ
clear_access_logs sub = delete_logs λ l. l.subscription_id == sub

-- `requested_at < cutoff`, on texts.
abbrev pub logged_before : Time → LogRow → Bool
logged_before cutoff l = db_time_lt (db_time l.requested_at) (db_time cutoff)

-- A retention of 0 keeps everything.
unfoldable pub cleanup_logs : ℕ → Time → Exec ℕ
cleanup_logs days now =
    if leb days 0 then pure 0 else delete_logs (logged_before (add_duration now (days_back days)))
