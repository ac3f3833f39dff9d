-- ===== src/Store/Valid/History.antt =====
-- Every history of calls keeps the database valid.
use sub_manager.Base.{ℕ, refl, Bool, List, Text, arith, inl, inr}
use sub_manager.Clock.{Time}
use sub_manager.Store
use sub_manager.Store.{Db, Command}
use sub_manager.Store.Valid.Defs.{IsValid, Keeps}
use sub_manager.Store.Valid.Updates.{
  update_subscriptions-IsValid, update_subscription_file-IsValid, update_subscription_path-IsValid,
}
use sub_manager.Store.Valid.Rows.{insert_subscription-IsValid, delete_subscription_row-IsValid}
use sub_manager.Store.Valid.FileRows.{
  update_file-IsValid, insert_file-IsValid, delete_unused_file-IsValid,
}
use sub_manager.Store.Valid.LogRows.{upsert_stat-IsValid, insert_log-IsValid, delete_logs-IsValid}
use sub_manager.Store.Valid.Rules.{keep_step}
use sub_manager.Store.Valid.Laws.{RowLaws, StatementLaws}
use sub_manager.Store.Valid.Methods.{run_all-Keeps}

create_subscription-IsValid :
    (name path content : Text) (enabled : Bool) (now : Time)
    → Keeps IsValid (Store.create_subscription name path content enabled now)
unfolding Store.create_subscription
create_subscription-IsValid name path content enabled now =
    insert_subscription-IsValid _ (λ id. refl) (λ id. refl) (λ id. omega arith)

create_file_subscription-IsValid :
    (name path : Text) (file : ℕ) (download : Text) (enabled : Bool) (now : Time)
    → Keeps IsValid (Store.create_file_subscription name path file download enabled now)
unfolding Store.create_file_subscription
create_file_subscription-IsValid name path file download enabled now =
    insert_subscription-IsValid _ (λ id. refl) (λ id. refl) (λ id. omega arith)

-- Each statement of a method keeps the database valid.
pub IsValid-rows : {GoodPath GoodContent : Text → Type 0} → RowLaws IsValid GoodPath GoodContent
IsValid-rows {GoodPath} {GoodContent} = record {
  access = record {
    fetch_counted = λ id file revision now ip.
        update_subscriptions-IsValid _ (Store.count_fetch file revision now ip)
          (keep_step _ (Store.count_fetch file revision now ip) (λ s. refl) (λ s h k. k)
            (λ s h. ground arith))
          (λ s. refl) (λ s. inl refl);
    download_counted = λ file now ip.
        update_file-IsValid file (Store.count_download now ip) (λ r. refl) (λ r. refl) (λ r. refl);
    stat_counted = λ file sub now ip.
        upsert_stat-IsValid (Store.first_stat file sub now ip) (Store.count_stat now ip) (λ t. refl)
          (λ t. refl);
    log_inserted = insert_log-IsValid;
  };
  text_created = λ name path content enabled now p c.
      create_subscription-IsValid name path content enabled now;
  file_subscription_created = λ name path file download enabled now p.
      create_file_subscription-IsValid name path file download enabled now;
  text_set = λ id name path content enabled now p c.
      update_subscription_path-IsValid id path _ _
        (keep_step _ _ (λ s. refl) (λ s h k. k) (λ s h. h)) (λ s. refl) (λ s. refl);
  metadata_set = λ id name path enabled now p.
      update_subscription_path-IsValid id path _ _
        (keep_step _ _ (λ s. refl) (λ s h k. k) (λ s h. h)) (λ s. refl) (λ s. refl);
  file_set = λ id file name now.
      update_subscription_file-IsValid _ _
        (keep_step _ (Store.set_file file name now) (λ s. refl) (λ s h k. ground arith)
          (λ s h. ground arith))
        file (λ s. refl) (λ s. refl);
  file_moved = λ old new name now.
      update_subscription_file-IsValid (Store.linked_to old) (Store.move_file new name now)
        (keep_step _ _ (λ s. refl) (λ s h k. ground arith) (λ s h. omega arith)) new (λ s. refl)
        (λ s. refl);
  file_cleared = λ id now.
      update_subscriptions-IsValid _ (Store.clear_file now)
        (keep_step _ (Store.clear_file now) (λ s. refl) (λ s h k. ground arith)
          (λ s h. omega arith))
        (λ s. refl) (λ s. inr refl);
  enabled_set = λ id enabled now.
      update_subscriptions-IsValid _ _ (keep_step _ _ (λ s. refl) (λ s h k. k) (λ s h. h))
        (λ s. refl) (λ s. inl refl);
  content_set = λ ids content now c.
      update_subscriptions-IsValid (Store.selected_text ids) (Store.set_content content now)
        (keep_step _ _ (λ s. refl) (λ s h k. k) (λ s h. h)) (λ s. refl) (λ s. inl refl);
  row_deleted = delete_subscription_row-IsValid;
  file_deleted = delete_unused_file-IsValid;
  logs_deleted = delete_logs-IsValid;
  settings_free =
      λ d s l v. record { subs = v.subs; files = v.files; refs = v.refs; pairs = v.pairs };
}

pub IsValid-laws : StatementLaws IsValid
IsValid-laws = record {
  rows = IsValid-rows;
  file_inserted = λ md5 sha size content_type key name now. insert_file-IsValid _ (λ id. refl);
}

-- After any calls of the methods of `Store`, one after another, with whatever arguments and whether
-- they succeed or fail, these still hold if they held before: ids, paths, digests and storage keys
-- are unique and ids within their counters, text subscriptions have no file, current counts are
-- within the total ones, and every reference from a subscription, a statistic or a log names a row
-- that is there.
pub run_all-IsValid :
    (hash : Text → Text) (cs : List (Command × Time)) (d : Db)
    → IsValid d
    → IsValid (Store.run_all hash cs d)
run_all-IsValid hash cs d v = run_all-Keeps IsValid-laws hash cs d v
