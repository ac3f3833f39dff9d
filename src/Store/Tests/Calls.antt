-- ===== src/Store/Tests/Calls.antt =====
-- Calls that change files, subscriptions and counts, and the theorems on them applied.
use sub_manager.Base.{◌+◌, ◌≡◌, refl, true, false, List, [], ◌∷◌, codes, arith, update_where}
use sub_manager.Clock.{Time}
use sub_manager.Store
use sub_manager.Store.{
  Db, SettingsRow, SessionRow, SubscriptionRow, FileRow, StatRow, LogRow, text_subscription,
  file_subscription, Command, Subscription, Session, ok, err,
}
use sub_manager.Store.Valid.{IsValid}
use sub_manager.Store.Valid.History.{run_all-IsValid}
use sub_manager.Store.Counting.{fetch_across_replacement, current_count}
use sub_manager.Store.Recorded.{access_exact}
use sub_manager.Store.Associations.{associations_move, delete_file_exact}
use sub_manager.Store.Tests.{start, hash, file_row, home, home-IsValid}

-- The file of the second subscription is replaced, fetched, detached, and a row is inserted.
abbrev day : List (Command × Time)
day =
    (Command.file_replace 2 2 (codes "b.yaml"), start)
    ∷ (
      Command.access_record (Store.scan_subscription file_row) 1 (codes "1.1.1.1") (codes "curl")
          (codes "curl/8") (codes "GET") 200,
      start + 1,
    )
    ∷ (Command.file_delete 1, start + 2)
    ∷ (Command.subscription_create (codes "n") (codes "/home") (codes "x") true, start + 3)
    ∷ []

history_example : IsValid (Store.run_all hash day home)
history_example = run_all-IsValid hash day home home-IsValid

-- The replacement puts the count of subscription 2 back to 0, and the late fetch leaves it there.
fetch_across_replacement_example :
    current_count 2
      (Store.record_access
        (Store.scan_subscription file_row)
        1
        (codes "1.1.1.1")
        (codes "curl")
        (codes "curl/8")
        (codes "GET")
        200
        (start + 1)
        (Store.run_all hash day
          (Store.replace_subscription_file 2 2 (codes "b.yaml") start home).1)).1
    ≡ current_count 2
        (Store.run_all hash day (Store.replace_subscription_file 2 2 (codes "b.yaml") start home).1)
fetch_across_replacement_example =
    fetch_across_replacement hash home 2 2 (codes "b.yaml") start file_row day 1 (codes "1.1.1.1")
      (codes "curl") (codes "curl/8") (codes "GET") 200 (start + 1) 2 home-IsValid refl refl refl
      refl

-- The first statement counts the fetch, then the file 42 is not found.
access_exact_example :
    let (r, d) =
      Store.record_access
        (Store.scan_subscription file_row)
        42
        (codes "1.1.1.1")
        (codes "curl")
        (codes "curl/8")
        (codes "GET")
        200
        start
        home in
    (r ≡ err Store.no_rows) × (d ≡ home)
unfolding Store.scan_subscription Store.record_access
access_exact_example =
    access_exact (Store.scan_subscription file_row) 42 (codes "1.1.1.1") (codes "curl")
      (codes "curl/8") (codes "GET") 200 start home home-IsValid

associations_example :
    (Store.replace_file_associations 1 2 (codes "b.yaml") start home ≡ (
      ok 1,
      record home {
        subscriptions =
            update_where
              (Store.linked_to 1)
              (Store.move_file 2 (codes "b.yaml") start)
              home.subscriptions;
      },
    ))
    × (Store.association_count 1 (
          update_where
            (Store.linked_to 1)
            (Store.move_file 2 (codes "b.yaml") start)
            home.subscriptions)
        ≡ 0)
    × (Store.association_count 2 (
          update_where
            (Store.linked_to 1)
            (Store.move_file 2 (codes "b.yaml") start)
            home.subscriptions)
        ≡ 1)
unfolding Store.association_count
associations_example =
    associations_move 1 2 (codes "b.yaml") start (omega arith) home home-IsValid refl refl

delete_file_example :
    ((Store.delete_file 2 home).0 ≡ ok tt)
    × (Store.has_file 2 (Store.delete_file 2 home).1.files ≡ false)
    × ((Store.delete_file 2 home).1.subscriptions ≡ home.subscriptions)
delete_file_example = delete_file_exact 2 home home-IsValid refl
