-- ===== src/Panel/Clean/FileRows.antt =====
-- A property of each file that does not speak of its downloads is kept by every statement that makes no
-- file.
use sub_manager.Base.{
  ℕ, ◌==◌, ◌≡◌, refl, Bool, not, ◌&&◌, Text, exists, arith, Bool-cases, inl, inr,
}
use sub_manager.Base.Rows.{All, All-update, All-delete}
use sub_manager.Clock.{Time}
use sub_manager.Store
use sub_manager.Store.{FileRow, SubscriptionRow, Db, Exec, uses_file}
use sub_manager.Store.Valid.{Keeps, RowLaws}

module _ (F : FileRow → Type 0)
    (same : (f : FileRow) (now : Time) (ip : Text) → F f → F (Store.count_download now ip f)) where
  abbrev pub AllFiles : Db → Type 0
  AllFiles d = All F d.files

  -- A statement that does not touch `files`.
  same_files : {A : Type 0} (m : Exec A) → ((d : Db) → (m d).1.files ≡ d.files) → Keeps AllFiles m
  same_files m e = record { at = λ d h. rw (e d) h }

  update_subscriptions-AllFiles :
      (p : SubscriptionRow → Bool) (f : SubscriptionRow → SubscriptionRow)
      → Keeps AllFiles (Store.update_subscriptions p f)
  unfolding Store.update_subscriptions
  update_subscriptions-AllFiles p f = same_files _ (λ d. refl)

  update_subscription_file-AllFiles :
      (file : ℕ) (p : SubscriptionRow → Bool) (f : SubscriptionRow → SubscriptionRow)
      → Keeps AllFiles (Store.update_subscription_file file p f)
  unfolding Store.update_subscription_file
  update_subscription_file-AllFiles file p f = same_files _ (λ d. ground arith)

  update_subscription_path-AllFiles :
      (id : ℕ) (path : Text) (p : SubscriptionRow → Bool) (f : SubscriptionRow → SubscriptionRow)
      → Keeps AllFiles (Store.update_subscription_path id path p f)
  unfolding Store.update_subscription_path
  update_subscription_path-AllFiles id path p f = same_files _ (λ d. ground arith)

  insert_subscription-AllFiles :
      (make : ℕ → SubscriptionRow) → Keeps AllFiles (Store.insert_subscription make)
  unfolding Store.insert_subscription
  insert_subscription-AllFiles make = same_files _ (λ d. ground arith)

  delete_unused_file-AllFiles : (id : ℕ) → Keeps AllFiles (Store.delete_unused_file id)
  unfolding Store.delete_unused_file
  delete_unused_file-AllFiles id = record {
    at = λ d h.
        let p = λ (r : FileRow). r.id == id && not (uses_file r.id d.subscriptions) in
        elim (Bool-cases (exists p d.files)) [
          | inl hit ↦ rw hit (All-delete F p d.files h)
          | inr none_hit ↦ rw none_hit h
        ];
  }

  pub AllFiles-laws : {GoodPath GoodContent : Text → Type 0} → RowLaws AllFiles GoodPath GoodContent
  unfolding Store.create_subscription Store.create_file_subscription Store.delete_subscription_row
      Store.update_file Store.upsert_stat Store.insert_log Store.delete_logs
  AllFiles-laws {GoodPath} {GoodContent} = record {
    access = record {
      fetch_counted = λ id file revision now ip. update_subscriptions-AllFiles _ _;
      download_counted = λ file now ip. record {
        at = λ d h.
            All-update F (λ r. r.id == file) (Store.count_download now ip) d.files
              (λ r hit k. same r now ip k) h;
      };
      stat_counted = λ file sub now ip. same_files _ (λ d. ground arith);
      log_inserted = λ make. same_files _ (λ d. ground arith);
    };
    text_created = λ name path content enabled now good nice. insert_subscription-AllFiles _;
    file_subscription_created =
        λ name path file download enabled now good. insert_subscription-AllFiles _;
    text_set =
        λ id name path content enabled now good nice. update_subscription_path-AllFiles id path _ _;
    metadata_set = λ id name path enabled now good. update_subscription_path-AllFiles id path _ _;
    file_set = λ id file name now. update_subscription_file-AllFiles file _ _;
    file_moved = λ old new name now. update_subscription_file-AllFiles new _ _;
    file_cleared = λ id now. update_subscriptions-AllFiles _ _;
    enabled_set = λ id enabled now. update_subscriptions-AllFiles _ _;
    content_set = λ ids content now nice. update_subscriptions-AllFiles _ _;
    row_deleted = λ id. same_files _ (λ d. refl);
    file_deleted = delete_unused_file-AllFiles;
    logs_deleted = λ r. same_files _ (λ d. refl);
    settings_free = λ d s l h. h;
  }
