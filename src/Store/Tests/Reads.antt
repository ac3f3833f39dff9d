-- ===== src/Store/Tests/Reads.antt =====
-- Sessions and access logs, and the theorems on them applied.
use sub_manager.Base.{
  ◌&&◌, ◌==◌, some, ℕ, ◌+◌, ◌*◌, ◌<◌, ◌≡◌, refl, [], ◌∷◌, codes, arith, count_where, text_eq, Bool,
  ◌++◌, ◌||◌, ◌-◌, ◌≤◌, leb, length, is_empty,
}
use sub_manager.Clock.{hour, nanoseconds, db_time, db_time_lt}
use sub_manager.Store
use sub_manager.Store.{
  Db, SettingsRow, SessionRow, SubscriptionRow, FileRow, StatRow, LogRow, text_subscription,
  AccessLog, file_subscription, Command, Subscription, Session, ok, err,
}
use sub_manager.Store.Login.{stale_login, session-create, session-delete, session_sound}
use sub_manager.Store.Listing.{Descending, list_ordered}
use sub_manager.Store.LogOrder.{NewestFirst}
use sub_manager.Store.Cleanup.{cleanup_bounds}
use sub_manager.Store.Logs.{pages_complete, first_pages}
use sub_manager.Store.Tests.{start, hash, home}

stale_login_example :
    Store.session hash
      (codes "u")
      start
      (Store.create_session hash (codes "u") (codes "c") 4 (start + hour) start home).1
    ≡ Store.session hash (codes "u") start home
stale_login_example =
    stale_login hash (codes "u") (codes "c") 4 (start + hour) start (codes "u") start home
      (omega arith)

session-create_example :
    Store.session hash
      (codes "u")
      start
      (Store.create_session hash (codes "u") (codes "c") 5 (start + hour) start home).1
    ≡ ok (record { csrf_token = codes "c"; version = 5; expires_at = start + hour })
unfolding db_time_lt db_time text_eq
session-create_example =
    session-create hash (codes "u") (codes "c") (start + hour) start start home refl

session-delete_example :
    Store.session hash (codes "t") start (Store.delete_session hash (codes "u") home).1
    ≡ Store.session hash (codes "t") start home
unfolding text_eq
session-delete_example = session-delete hash (codes "u") (codes "t") start home

abbrev home_session : Session
home_session = record { csrf_token = codes "c"; version = 5; expires_at = start + hour }

found : Store.session hash (codes "t") start home ≡ ok home_session
unfolding Store.session db_time_lt db_time text_eq
found = refl

session_sound_example : (home_session.version ≡ 5) × (start < home_session.expires_at + nanoseconds)
session_sound_example = session_sound hash (codes "t") start home home_session found

-- The logs that a GET made.
abbrev is_get : AccessLog → Bool
is_get l = text_eq l.method (codes "GET")

-- Two pages of one log each.
pages_example :
    let page = Store.access_logs 2 1 1 [] [] home in
    let all = first_pages 2 [] [] 1 page.total_pages home in
    NewestFirst all
    × (count_where is_get all
        ≡ count_where
            (λ l.
              (l.subscription_id == 2
                && (is_empty [] || Store.like (b'%' ∷ ([] ++ b'%' ∷ [])) l.client_ip)
                && (is_empty [] || text_eq l.client_name []))
              && is_get (Store.scan_log l))
            home.logs)
    × (page.total ≡ length all)
pages_example = pages_complete 2 [] [] 1 home (omega arith) (omega arith) is_get (omega arith)

-- One of the two logs is older than a day.
cleanup_example :
    let now = start + 25 * hour in
    let (r, d) = Store.cleanup_logs 1 now home in
    (count_where (λ l. leb (l.requested_at + 1 * 24 * hour + nanoseconds) now) d.logs ≡ 0)
    × (count_where
          (λ l. leb (now + nanoseconds) (l.requested_at + 1 * 24 * hour) && l.id == 2)
          d.logs
        ≡ count_where
            (λ l. leb (now + nanoseconds) (l.requested_at + 1 * 24 * hour) && l.id == 2)
            home.logs)
    × (count_where (λ l. l.id == 2) d.logs ≤ count_where (λ l. l.id == 2) home.logs)
    × (r ≡ ok (length home.logs - length d.logs))
    × (d ≡ record home { logs = d.logs })
cleanup_example =
    cleanup_bounds 1 (start + 25 * hour) home (omega arith) (omega arith) (omega arith)
      (λ l. l.id == 2)

list_example :
    Descending (Store.list_subscriptions_by_type (some text_subscription) home)
    × ((k : ℕ)
        → count_where
            (λ s. s.id == k)
            (Store.list_subscriptions_by_type (some text_subscription) home)
          ≡ count_where
              (λ s. s.id == k && Store.of_type (some text_subscription) s)
              home.subscriptions)
list_example = list_ordered (some text_subscription) home
