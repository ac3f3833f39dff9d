-- ===== src/Store/Cleanup.antt =====
-- The cleanup of the access log (`CleanupLogs` of internal/app/store.go).
use native.Mathlib.Nat.{mod-eq_of_lt}
use sub_manager.Base.{
  ℕ, ◌+◌, ◌-◌, ◌*◌, ◌^◌, ◌≤◌, ◌<◌, ◌≡◌, ap, refl, Bool, true, false, ◌&&◌, leb, List, [], ◌∷◌,
  length, delete_where, count_where, arith,
}
use sub_manager.Clock.{Time, nanoseconds, hour, add_duration, days_back}
use sub_manager.Clock.Order.{db_time_lt_of_second, db_time_lt_sound}
use sub_manager.Store.Tables.{LogRow, Db, ok}
use sub_manager.Store.Statements.{delete_logs}
use sub_manager.Store.Access.{cleanup_logs, logged_before}

-- A test that only rows outside of the deleted ones meet counts the same before and after.
count-delete_none {ℓ} :
    {A : Type ℓ} (q gone : A → Bool) (xs : List A)
    → ((x : A) → q x ≡ true → gone x ≡ true)
    → count_where q (delete_where gone xs) ≡ 0
count-delete_none q gone [] h = refl
count-delete_none q gone (x ∷ xs) h = ground (arith, h x, count-delete_none q gone xs h)

count-delete_all {ℓ} :
    {A : Type ℓ} (q gone : A → Bool) (xs : List A)
    → ((x : A) → q x ≡ true → gone x ≡ false)
    → count_where q (delete_where gone xs) ≡ count_where q xs
count-delete_all q gone [] h = refl
count-delete_all q gone (x ∷ xs) h = ground (arith, h x, count-delete_all q gone xs h)

count-delete-le {ℓ} :
    {A : Type ℓ} (q gone : A → Bool) (xs : List A)
    → count_where q (delete_where gone xs) ≤ count_where q xs
count-delete-le q gone [] = omega arith
count-delete-le q gone (x ∷ xs) = ground (arith, count-delete-le q gone xs)

length-delete {ℓ} :
    {A : Type ℓ} (gone : A → Bool) (xs : List A)
    → count_where gone xs + length (delete_where gone xs) ≡ length xs
length-delete gone [] = omega arith
length-delete gone (x ∷ xs) = ground (arith, length-delete gone xs)

module _ (days : ℕ) (now : Time) (d : Db) (kept : 0 < days) (no_overflow : days ≤ 106_751)
    (present : days * 24 * hour ≤ now) where
  -- What was logged a second or more before the retention time began, and a second or more after.
  abbrev surely_old : LogRow → Bool
  surely_old l = leb (l.requested_at + days * 24 * hour + nanoseconds) now

  abbrev surely_young : LogRow → Bool
  surely_young l = leb (now + nanoseconds) (l.requested_at + days * 24 * hour)

  cutoff : add_duration now (days_back days) ≡ now - days * 24 * hour
  unfolding add_duration days_back
  cutoff = rw (mod-eq_of_lt {n = days * 24 * hour} {m = 2 ^ 64} (omega arith)) (ground arith)

  -- With a retention time from 1 to 106751 days, beyond which the code's int64 overflows, and at an
  -- instant at least that long after Go's zero time, the cleanup deletes all logs that are a second or
  -- more older than the retention time, keeps all that are a second or more younger (counted by any
  -- test `p`), adds none, returns the number of those that went, and changes no other table.
  pub cleanup_bounds :
      (p : LogRow → Bool)
      → let (r, d') = cleanup_logs days now d in
        (count_where surely_old d'.logs ≡ 0)
        × (count_where (λ l. surely_young l && p l) d'.logs
            ≡ count_where (λ l. surely_young l && p l) d.logs)
        × (count_where p d'.logs ≤ count_where p d.logs)
        × (r ≡ ok (length d.logs - length d'.logs))
        × (d' ≡ record d { logs = d'.logs })
  cleanup_bounds p =
      let gone = logged_before (add_duration now (days_back days)) in
      let old : (l : LogRow) → surely_old l ≡ true → gone l ≡ true = λ l h.
        rw cutoff (db_time_lt_of_second l.requested_at (now - days * 24 * hour) (ground arith)) in
      let young : (l : LogRow) → (surely_young l && p l) ≡ true → gone l ≡ false = λ l h.
        rw cutoff (ground (arith, db_time_lt_sound l.requested_at (now - days * 24 * hour))) in
      let runs : cleanup_logs days now d
          ≡ (ok (count_where gone d.logs), record d { logs = delete_where gone d.logs }) =
        unfold cleanup_logs delete_logs in ground arith in
      rw runs (
        count-delete_none surely_old gone d.logs old,
        count-delete_all (λ l. surely_young l && p l) gone d.logs young,
        count-delete-le p gone d.logs,
        ap ok (omega (arith, length-delete gone d.logs)),
        refl,
      )
