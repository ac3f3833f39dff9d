-- ===== src/Store/Recorded.antt =====
-- What a recorded fetch of a file counts (`RecordAccess` of internal/app/store.go).
use sub_manager.Base.{
  some, find, ap, ◌&&◌, ◌∙◌, ◌||◌, ℕ, ◌+◌, ◌<◌, ◌≡◌, refl, true, ◌==◌, [], ◌∷◌, ◌++◌, Text, exists,
  count_where, update_where, arith, if◌then◌else◌,
}
use sub_manager.Base.Rows.{count-Unique, exists-update, exists_of_find}
use sub_manager.Clock.{Time}
use sub_manager.Store.Tables.{
  is_file, opt_eq, err, no_rows, SubscriptionRow, FileRow, StatRow, Db, ok, has_file,
  has_subscription, expect_one,
}
use sub_manager.Store.Statements.{
  update_subscriptions, update_file, upsert_stat, insert_log, is_pair,
}
use sub_manager.Store.Subscriptions.{Subscription}
use sub_manager.Store.Access.{record_access, access_body, record_file, count_fetch, count_download}
use sub_manager.Store.Counts.{
  pair_downloads, fetches_of, present_fetches_of, last_fetch_of, downloads_of, last_download_of,
  subscription_row, stored_file_row, downloads-snoc, downloads-update, fetched_counts,
  downloaded_counts,
}
use sub_manager.Store.Valid.{IsValid}

module _ (sub : Subscription) (file : ℕ) (ip client agent method : Text) (status : ℕ) (now : Time)
    (d : Db) (v : IsValid d) where
  one_subscription :
      has_subscription sub.id d.subscriptions ≡ true
      → count_where (λ s. s.id == sub.id) d.subscriptions ≡ 1
  one_subscription h = rw h at (
      count-Unique (λ (s : SubscriptionRow). s.id) sub.id (λ s. s.id == sub.id)
        (λ s e. ground arith) d.subscriptions v.subs.ids)

  one_file : has_file file d.files ≡ true → count_where (λ r. r.id == file) d.files ≡ 1
  one_file h = rw h at (
      count-Unique (λ (r : FileRow). r.id) file (λ r. r.id == file) (λ r e. ground arith) d.files
        v.files.ids)

  one_stat :
      count_where (is_pair file sub.id) d.stats
      ≡ (if exists (is_pair file sub.id) d.stats then 1 else 0)
  one_stat =
      count-Unique (λ (t : StatRow). (t.file_id, t.subscription_id)) (file, sub.id)
        (is_pair file sub.id) (λ t e. ground arith) d.stats v.pairs

  recorded_file :
      has_subscription sub.id d.subscriptions ≡ true
      → has_file file d.files ≡ true
      → 0 < file
      → (f k : ℕ)
      → let (r, d') = record_access sub file ip client agent method status now d in
        (r ≡ ok tt)
        × (d'.subscriptions
            ≡ update_where
                (λ s. s.id == sub.id)
                (count_fetch file sub.file_revision now ip)
                d.subscriptions)
        × (d'.files ≡ update_where (λ r. r.id == file) (count_download now ip) d.files)
        × (pair_downloads f k d'.stats
            ≡ pair_downloads f k d.stats + (if f == file && k == sub.id then 1 else 0))
        × (d'.logs
            ≡ d.logs
              ++ record {
                id = d.last_log + 1;
                subscription_id = sub.id;
                file_id = some file;
                requested_at = now;
                client_ip = ip;
                client_name = client;
                user_agent = agent;
                method = method;
                status_code = status;
              }
                ∷ [])
  unfolding record_access access_body update_subscriptions expect_one record_file update_file
      upsert_stat insert_log
  recorded_file has_sub has_it pos f k = ground (
    arith,
    one_subscription has_sub,
    one_file has_it,
    one_stat,
    downloads-snoc file sub.id now ip f k d.stats,
    downloads-update file sub.id now ip f k d.stats,
    exists-update (λ s. s.id == sub.id) (λ s. s.id == sub.id)
        (count_fetch file sub.file_revision now ip) d.subscriptions (λ s. refl),
    exists-update (λ r. r.id == file) (λ r. r.id == file) (count_download now ip) d.files
        (λ r. refl),
  )

  pub file_access_counted :
      (row : SubscriptionRow) (f k : ℕ)
      → subscription_row sub.id d ≡ some row
      → has_file file d.files ≡ true
      → 0 < file
      → let (r, d') = record_access sub file ip client agent method status now d in
        let still_served =
          is_file row.kind && opt_eq row.file_id file && row.file_revision == sub.file_revision in
        (r ≡ ok tt)
        × (fetches_of (subscription_row k d')
            ≡ fetches_of (subscription_row k d) + (if k == sub.id then 1 else 0))
        × (present_fetches_of (subscription_row k d')
            ≡ present_fetches_of (subscription_row k d)
              + (if k == sub.id && still_served then 1 else 0))
        × (downloads_of (stored_file_row f d')
            ≡ downloads_of (stored_file_row f d) + (if f == file then 1 else 0))
        × (pair_downloads f k d'.stats
            ≡ pair_downloads f k d.stats + (if f == file && k == sub.id then 1 else 0))
        × (last_fetch_of (subscription_row k d')
            ≡ (if k == sub.id then some (some now, ip) else last_fetch_of (subscription_row k d)))
        × (last_download_of (stored_file_row f d')
            ≡ (if f == file then some (some now, ip) else last_download_of (stored_file_row f d)))
        × (d'.logs
            ≡ d.logs
              ++ record {
                id = d.last_log + 1;
                subscription_id = sub.id;
                file_id = some file;
                requested_at = now;
                client_ip = ip;
                client_name = client;
                user_agent = agent;
                method = method;
                status_code = status;
              }
                ∷ [])
  file_access_counted row f k found has_it pos =
      let (done, subs, files, pairs, logs) =
        recorded_file (exists_of_find (λ s. s.id == sub.id) d.subscriptions row found) has_it pos f
          k in
      let (total, current, last) =
        fetched_counts sub.id file sub.file_revision now ip d.subscriptions row found k in
      let (downloads, last_download) = downloaded_counts file now ip d.files has_it f in
      (
        done,
        ap (λ l. fetches_of (find (λ s. s.id == k) l)) subs ∙ total,
        ap (λ l. present_fetches_of (find (λ s. s.id == k) l)) subs ∙ current,
        ap (λ l. downloads_of (find (λ r. r.id == f) l)) files ∙ downloads,
        pairs,
        ap (λ l. last_fetch_of (find (λ s. s.id == k) l)) subs ∙ last,
        ap (λ l. last_download_of (find (λ r. r.id == f) l)) files ∙ last_download,
        logs,
      )

  -- In a valid database, recording a fetch succeeds exactly if the subscription is there, and the file
  -- too if one was served; otherwise it reports that there is no such row, and the whole database is as
  -- before, also where the first statements of the transaction had succeeded.
  pub access_exact :
      let (r, d') = record_access sub file ip client agent method status now d in
      let there = has_subscription sub.id d.subscriptions && (file == 0 || has_file file d.files) in
      (r ≡ (if there then ok tt else err no_rows)) × ((if there then d else d') ≡ d)
  unfolding record_access access_body update_subscriptions expect_one record_file update_file
      upsert_stat insert_log
  access_exact = ground (
    arith,
    one_subscription,
    one_file,
    one_stat,
    exists-update (λ s. s.id == sub.id) (λ s. s.id == sub.id)
        (count_fetch file sub.file_revision now ip) d.subscriptions (λ s. refl),
    exists-update (λ r. r.id == file) (λ r. r.id == file) (count_download now ip) d.files
        (λ r. refl),
    count-Unique (λ (s : SubscriptionRow). s.id) sub.id (λ s. s.id == sub.id) (λ s e. ground arith)
        d.subscriptions v.subs.ids,
    count-Unique (λ (r : FileRow). r.id) file (λ r. r.id == file) (λ r e. ground arith) d.files
        v.files.ids,
  )
