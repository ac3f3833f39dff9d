-- ===== src/Store/Valid/LogRows.antt =====
-- The statements on `file_subscription_stats` and `access_logs` keep the database valid.
use sub_manager.Base.{
  ℕ, ◌+◌, ◌≡◌, Bool, true, false, [], ◌∷◌, ◌++◌, exists, update_where, arith, Bool-cases, inl, inr,
}
use sub_manager.Base.Rows.{
  All-update, All-delete, All-snoc, Unique-update, Unique-snoc, Fresh-of_exists,
}
use sub_manager.Store.{
  StatRow, LogRow, Db, has_file, has_subscription, file_ref_ok, is_pair, upsert_stat, insert_log,
  delete_logs,
}
use sub_manager.Store.Valid.Defs.{StatRef, LogRef, pair_key, IsValid, Keeps}

module _ (row : StatRow) (f : StatRow → StatRow) where
  stat_updated :
      (d : Db)
      → ((t : StatRow) → (f t).file_id ≡ t.file_id)
      → ((t : StatRow) → (f t).subscription_id ≡ t.subscription_id)
      → IsValid d
      → IsValid
          (record d { stats = update_where (is_pair row.file_id row.subscription_id) f d.stats })
  stat_updated d file sub v =
      let p = is_pair row.file_id row.subscription_id in
      record {
        subs = v.subs;
        files = v.files;
        refs = record {
          sub_files = v.refs.sub_files;
          stat_rows =
              All-update (StatRef d.subscriptions d.files) p f d.stats
                (λ t hit h. rw (file t, sub t) h) v.refs.stat_rows;
          log_rows = v.refs.log_rows;
        };
        pairs = Unique-update pair_key p f d.stats (λ t i. (file t i, sub t i)) v.pairs;
      }

  stat_inserted :
      (d : Db)
      → has_file row.file_id d.files ≡ true
      → has_subscription row.subscription_id d.subscriptions ≡ true
      → exists (is_pair row.file_id row.subscription_id) d.stats ≡ false
      → IsValid d
      → IsValid (record d { stats = d.stats ++ row ∷ [] })
  stat_inserted d file sub new v = record {
    subs = v.subs;
    files = v.files;
    refs = record {
      sub_files = v.refs.sub_files;
      stat_rows =
          All-snoc (StatRef d.subscriptions d.files) d.stats row v.refs.stat_rows (file, sub);
      log_rows = v.refs.log_rows;
    };
    pairs = Unique-snoc pair_key d.stats row v.pairs (
        Fresh-of_exists pair_key (is_pair row.file_id row.subscription_id) (pair_key row) d.stats
          (λ t e. ground arith) new);
  }

  pub upsert_stat-IsValid :
      ((t : StatRow) → (f t).file_id ≡ t.file_id)
      → ((t : StatRow) → (f t).subscription_id ≡ t.subscription_id)
      → Keeps IsValid (upsert_stat row f)
  unfolding upsert_stat
  upsert_stat-IsValid file sub = record {
    at = λ d v. elim (Bool-cases (has_file row.file_id d.files)) [
      | inr missing ↦ rw missing v
      | inl there ↦ elim (Bool-cases (has_subscription row.subscription_id d.subscriptions)) [
        | inr missing ↦ rw (there, missing) v
        | inl here ↦ elim (Bool-cases (exists (is_pair row.file_id row.subscription_id) d.stats)) [
          | inl old ↦ rw (there, here, old) (stat_updated d file sub v)
          | inr new ↦ rw (there, here, new) (stat_inserted d there here new v)
        ]
      ]
    ];
  }

pub insert_log-IsValid : (make : ℕ → LogRow) → Keeps IsValid (insert_log make)
unfolding insert_log
insert_log-IsValid make = record {
  at = λ d v.
      let row = make (d.last_log + 1) in
      elim (Bool-cases (has_subscription row.subscription_id d.subscriptions)) [
        | inr missing ↦ rw missing v
        | inl here ↦ elim (Bool-cases (file_ref_ok row.file_id d.files)) [
          | inr missing ↦ rw (here, missing) v
          | inl there ↦
              rw (here, there)
                (record {
                  subs = v.subs;
                  files = v.files;
                  refs = record {
                    sub_files = v.refs.sub_files;
                    stat_rows = v.refs.stat_rows;
                    log_rows =
                        All-snoc (LogRef d.subscriptions d.files) d.logs row v.refs.log_rows
                          (here, there);
                  };
                  pairs = v.pairs;
                })
        ]
      ];
}

pub delete_logs-IsValid : (p : LogRow → Bool) → Keeps IsValid (delete_logs p)
unfolding delete_logs
delete_logs-IsValid p = record {
  at = λ d v. record {
    subs = v.subs;
    files = v.files;
    refs = record {
      sub_files = v.refs.sub_files;
      stat_rows = v.refs.stat_rows;
      log_rows = All-delete (LogRef d.subscriptions d.files) p d.logs v.refs.log_rows;
    };
    pairs = v.pairs;
  };
}
