-- ===== src/Store/Revision.antt =====
-- The revision of a subscription's file (`file_revision` in internal/app/store.go): it never falls,
-- and a fetch that began before a change of the file is not counted for the new one.
use sub_manager.Base.{
  text_eq, ℕ, ◌+◌, ◌≤◌, ◌≡◌, ◌∙◌, sym, refl, Bool, not, ◌&&◌, ◌==◌, Text, exists, update_where,
  arith, Bool-cases, inl, inr,
}
use sub_manager.Base.Rows.{All, All-update, All-snoc, All-delete}
use sub_manager.Store.Tables.{SubscriptionRow, Db, has_file, file_ref_ok}
use sub_manager.Store.Statements.{
  update_subscriptions, update_subscription_path, update_subscription_file, insert_subscription,
  delete_subscription_row, update_file, insert_file, delete_unused_file, upsert_stat, insert_log,
  delete_logs,
}
use sub_manager.Store.Subscriptions.{create_subscription, create_file_subscription}
use sub_manager.Store.FileLinks.{set_file}
use sub_manager.Store.Valid.{Keeps, RowLaws, Whatever, StatementLaws}

-- The id `k` has been assigned, and its row, if it is still there, has a revision of `n` or more.
pub record RevisionFrom (k n : ℕ) (d : Db) : Type 0 where
  pub assigned : k ≤ d.last_subscription
  pub from : All (λ s. s.id ≡ k → n ≤ s.file_revision) d.subscriptions

module _ (k n : ℕ) where
  abbrev Above : SubscriptionRow → Type 0
  Above s = s.id ≡ k → n ≤ s.file_revision

  updated :
      (p : SubscriptionRow → Bool) (f : SubscriptionRow → SubscriptionRow) (d : Db)
      → ((s : SubscriptionRow) → (f s).id ≡ s.id)
      → ((s : SubscriptionRow) → s.file_revision ≤ (f s).file_revision)
      → RevisionFrom k n d
      → RevisionFrom k n (record d { subscriptions = update_where p f d.subscriptions })
  updated p f d id grows r = record {
    assigned = r.assigned;
    from =
        All-update Above p f d.subscriptions
          (λ s hit h e. omega (arith, h (sym (id s) ∙ e), grows s)) r.from;
  }

  update_subscriptions-Keeps :
      (p : SubscriptionRow → Bool) (f : SubscriptionRow → SubscriptionRow)
      → ((s : SubscriptionRow) → (f s).id ≡ s.id)
      → ((s : SubscriptionRow) → s.file_revision ≤ (f s).file_revision)
      → Keeps (RevisionFrom k n) (update_subscriptions p f)
  unfolding update_subscriptions
  update_subscriptions-Keeps p f id grows = record { at = λ d r. updated p f d id grows r }

  update_subscription_file-Keeps :
      (file : ℕ) (p : SubscriptionRow → Bool) (f : SubscriptionRow → SubscriptionRow)
      → ((s : SubscriptionRow) → (f s).id ≡ s.id)
      → ((s : SubscriptionRow) → s.file_revision ≤ (f s).file_revision)
      → Keeps (RevisionFrom k n) (update_subscription_file file p f)
  unfolding update_subscription_file
  update_subscription_file-Keeps file p f id grows = record {
    at = λ d r. elim (Bool-cases (exists p d.subscriptions && not (has_file file d.files))) [
      | inl bad ↦ rw bad r
      | inr good ↦ rw good (updated p f d id grows r)
    ];
  }

  update_subscription_path-Keeps :
      (id : ℕ) (path : Text) (p : SubscriptionRow → Bool) (f : SubscriptionRow → SubscriptionRow)
      → ((s : SubscriptionRow) → (f s).id ≡ s.id)
      → ((s : SubscriptionRow) → s.file_revision ≤ (f s).file_revision)
      → Keeps (RevisionFrom k n) (update_subscription_path id path p f)
  unfolding update_subscription_path
  update_subscription_path-Keeps id path p f same grows = record {
    at = λ d r.
        elim (Bool-cases (
          exists (λ s. s.id == id && p s) d.subscriptions
          && exists (λ s. text_eq s.path path && not (s.id == id)) d.subscriptions)) [
            | inl bad ↦ rw bad r
            | inr good ↦ rw good (updated (λ s. s.id == id && p s) f d same grows r)
          ];
  }

  insert_subscription-Keeps :
      (make : ℕ → SubscriptionRow)
      → ((id : ℕ) → (make id).id ≡ id)
      → Keeps (RevisionFrom k n) (insert_subscription make)
  unfolding insert_subscription
  insert_subscription-Keeps make id = record {
    at = λ d r.
        let row = make (d.last_subscription + 1) in
        elim (Bool-cases (exists (λ s. text_eq s.path row.path) d.subscriptions)) [
          | inl taken ↦ rw taken r
          | inr free ↦ elim (Bool-cases (file_ref_ok row.file_id d.files)) [
            | inr missing ↦ rw (free, missing) r
            | inl there ↦
                rw (free, there)
                  (record {
                    assigned = omega (arith, r.assigned);
                    from =
                        All-snoc Above d.subscriptions row r.from
                          (λ e. absurd (omega (arith, r.assigned, id (d.last_subscription + 1))));
                  })
          ]
        ];
  }

  -- What does not touch `subscriptions`.
  same_rows :
      (d d' : Db)
      → d'.subscriptions ≡ d.subscriptions
      → d'.last_subscription ≡ d.last_subscription
      → RevisionFrom k n d
      → RevisionFrom k n d'
  same_rows d d' e f r = record { assigned = rw f r.assigned; from = rw e r.from }

  RevisionFrom-rows : RowLaws (RevisionFrom k n) Whatever Whatever
  unfolding create_subscription create_file_subscription delete_subscription_row update_file
      delete_unused_file upsert_stat insert_log delete_logs
  RevisionFrom-rows = record {
    access = record {
      fetch_counted =
          λ id file revision now ip. update_subscriptions-Keeps _ _ (λ s. refl) (λ s. omega arith);
      download_counted =
          λ file now ip. record { at = λ d r. record { assigned = r.assigned; from = r.from } };
      stat_counted =
          λ file sub now ip. record { at = λ d r. same_rows d _ (ground arith) (ground arith) r };
      log_inserted = λ make. record { at = λ d r. same_rows d _ (ground arith) (ground arith) r };
    };
    text_created = λ name path content enabled now p c. insert_subscription-Keeps _ (λ id. refl);
    file_subscription_created =
        λ name path file download enabled now p. insert_subscription-Keeps _ (λ id. refl);
    text_set = λ id name path content enabled now p c.
        update_subscription_path-Keeps id path _ _ (λ s. refl) (λ s. omega arith);
    metadata_set = λ id name path enabled now p.
        update_subscription_path-Keeps id path _ _ (λ s. refl) (λ s. omega arith);
    file_set = λ id file name now.
        update_subscription_file-Keeps file _ (set_file file name now) (λ s. refl)
          (λ s. omega arith);
    file_moved =
        λ old new name now. update_subscription_file-Keeps new _ _ (λ s. refl) (λ s. omega arith);
    file_cleared = λ id now. update_subscriptions-Keeps _ _ (λ s. refl) (λ s. omega arith);
    enabled_set = λ id enabled now. update_subscriptions-Keeps _ _ (λ s. refl) (λ s. omega arith);
    content_set =
        λ ids content now c. update_subscriptions-Keeps _ _ (λ s. refl) (λ s. omega arith);
    row_deleted = λ id. record {
      at =
          λ d r. record { assigned = r.assigned; from = All-delete Above _ d.subscriptions r.from };
    };
    file_deleted = λ id. record { at = λ d r. same_rows d _ (ground arith) (ground arith) r };
    logs_deleted = λ p. record { at = λ d r. record { assigned = r.assigned; from = r.from } };
    settings_free = λ d s l r. record { assigned = r.assigned; from = r.from };
  }

  pub RevisionFrom-laws : StatementLaws (RevisionFrom k n)
  unfolding insert_file
  RevisionFrom-laws = record {
    rows = RevisionFrom-rows;
    file_inserted = λ md5 sha size content_type key name now. record {
      at = λ d r. same_rows d _ (ground arith) (ground arith) r;
    };
  }
