-- ===== src/Panel/Clean/Rows.antt =====
-- Every subscription has a good path and, if it is a text, good content.
use sub_manager.Base.{
  ℕ, ◌+◌, ◌≡◌, refl, Bool, true, false, not, ◌&&◌, ◌==◌, Text, text_eq, exists, update_where, arith,
  Bool-cases, inl, inr,
}
use sub_manager.Base.Rows.{All, All-update, All-delete, All-snoc}
use sub_manager.Clock.{Time}
use sub_manager.Helpers.Accepted.{GoodPath, GoodContent}
use sub_manager.Store
use sub_manager.Store.{SubscriptionRow, Db, Exec, is_file, file_ref_ok, has_file}
use sub_manager.Store.Valid.{Keeps, RowLaws}

abbrev pub CleanRow : SubscriptionRow → Type 0
CleanRow s = GoodPath s.path × (is_file s.kind ≡ false → GoodContent s.content)

abbrev pub CleanRows : Db → Type 0
CleanRows d = All CleanRow d.subscriptions

module _ (p : SubscriptionRow → Bool) (f : SubscriptionRow → SubscriptionRow)
    (step : (s : SubscriptionRow) → p s ≡ true → CleanRow s → CleanRow (f s)) where
  updated : (d : Db) → CleanRows d → All CleanRow (update_where p f d.subscriptions)
  updated d h = All-update CleanRow p f d.subscriptions step h

  update_subscriptions-CleanRows : Keeps CleanRows (Store.update_subscriptions p f)
  unfolding Store.update_subscriptions
  update_subscriptions-CleanRows = record { at = λ d h. updated d h }

  update_subscription_file-CleanRows :
      (file : ℕ) → Keeps CleanRows (Store.update_subscription_file file p f)
  unfolding Store.update_subscription_file
  update_subscription_file-CleanRows file = record {
    at = λ d h. elim (Bool-cases (exists p d.subscriptions && not (has_file file d.files))) [
      | inl missing ↦ rw missing h
      | inr there ↦ rw there (updated d h)
    ];
  }

update_subscription_path-CleanRows :
    (id : ℕ) (path : Text) (p : SubscriptionRow → Bool) (f : SubscriptionRow → SubscriptionRow)
    → ((s : SubscriptionRow) → p s ≡ true → CleanRow s → CleanRow (f s))
    → Keeps CleanRows (Store.update_subscription_path id path p f)
unfolding Store.update_subscription_path
update_subscription_path-CleanRows id path p f step = record {
  at = λ d h.
      let q = λ (s : SubscriptionRow). s.id == id && p s in
      elim (Bool-cases (
        exists q d.subscriptions
        && exists (λ s. text_eq s.path path && not (s.id == id)) d.subscriptions)) [
          | inl taken ↦ rw taken h
          | inr free ↦ rw free (updated q f (λ s hit c. step s (ground arith) c) d h)
        ];
}

insert_subscription-CleanRows :
    (make : ℕ → SubscriptionRow)
    → ((id : ℕ) → CleanRow (make id))
    → Keeps CleanRows (Store.insert_subscription make)
unfolding Store.insert_subscription
insert_subscription-CleanRows make clean = record {
  at = λ d h.
      let row = make (d.last_subscription + 1) in
      elim (Bool-cases (exists (λ s. text_eq s.path row.path) d.subscriptions)) [
        | inl taken ↦ rw taken h
        | inr free ↦ elim (Bool-cases (file_ref_ok row.file_id d.files)) [
          | inr missing ↦ rw (free, missing) h
          | inl there ↦
              rw (free, there)
                (All-snoc CleanRow d.subscriptions row h (clean (d.last_subscription + 1)))
        ]
      ];
}

-- A statement that does not touch `subscriptions`.
same_rows :
    {A : Type 0} (m : Exec A)
    → ((d : Db) → (m d).1.subscriptions ≡ d.subscriptions)
    → Keeps CleanRows m
same_rows m e = record { at = λ d h. rw (e d) h }

created-CleanRows :
    (name path content : Text) (enabled : Bool) (now : Time)
    → GoodPath path
    → GoodContent content
    → Keeps CleanRows (Store.create_subscription name path content enabled now)
unfolding Store.create_subscription
created-CleanRows name path content enabled now good nice =
    insert_subscription-CleanRows _ (λ id. (good, λ text. nice))

file_created-CleanRows :
    (name path : Text) (file : ℕ) (download : Text) (enabled : Bool) (now : Time)
    → GoodPath path
    → Keeps CleanRows (Store.create_file_subscription name path file download enabled now)
unfolding Store.create_file_subscription
file_created-CleanRows name path file download enabled now good =
    insert_subscription-CleanRows _ (λ id. (good, λ text. absurd (ground arith)))

pub insert_file-CleanRows : (make : ℕ → Store.FileRow) → Keeps CleanRows (Store.insert_file make)
unfolding Store.insert_file
insert_file-CleanRows make = same_rows _ (λ d. ground arith)

pub CleanRows-laws : RowLaws CleanRows GoodPath GoodContent
unfolding Store.delete_subscription_row Store.update_file Store.delete_unused_file Store.upsert_stat
    Store.insert_log Store.delete_logs
CleanRows-laws = record {
  access = record {
    fetch_counted = λ id file revision now ip.
        update_subscriptions-CleanRows _ (Store.count_fetch file revision now ip) (λ s hit c. c);
    download_counted = λ file now ip. same_rows _ (λ d. refl);
    stat_counted = λ file sub now ip. same_rows _ (λ d. ground arith);
    log_inserted = λ make. same_rows _ (λ d. ground arith);
  };
  text_created = created-CleanRows;
  file_subscription_created = file_created-CleanRows;
  text_set = λ id name path content enabled now good nice.
      update_subscription_path-CleanRows id path _ (Store.set_text name path content enabled now)
        (λ s hit c. (good, λ text. nice));
  metadata_set = λ id name path enabled now good.
      update_subscription_path-CleanRows id path _ (Store.set_file_metadata name path enabled now)
        (λ s hit c. (good, c.1));
  file_set = λ id file name now.
      update_subscription_file-CleanRows _ (Store.set_file file name now) (λ s hit c. c) file;
  file_moved = λ old new name now.
      update_subscription_file-CleanRows _ (Store.move_file new name now) (λ s hit c. c) new;
  file_cleared = λ id now. update_subscriptions-CleanRows _ (Store.clear_file now) (λ s hit c. c);
  enabled_set = λ id enabled now.
      update_subscriptions-CleanRows _ (Store.set_enabled enabled now) (λ s hit c. c);
  content_set = λ ids content now nice.
      update_subscriptions-CleanRows _ (Store.set_content content now)
        (λ s hit c. (c.0, λ text. nice));
  row_deleted =
      λ id. record { at = λ d h. All-delete CleanRow (λ s. s.id == id) d.subscriptions h };
  file_deleted = λ id. same_rows _ (λ d. ground arith);
  logs_deleted = λ r. same_rows _ (λ d. refl);
  settings_free = λ d s l h. h;
}
