-- ===== src/Store/Counts.antt =====
-- The numbers that the store keeps of fetches, and what the statements of `RecordAccess` in
-- internal/app/store.go do to them.
use mathlib.Core.Option.{some-injective}
use sub_manager.Base.{
  Option, none, some, find, ◌&&◌, sym, ◌∙◌, subst, ==_iff, Bool-cases, inl, inr, ℕ, ◌+◌, ◌≡◌, refl,
  true, ◌==◌, List, [], ◌∷◌, ◌++◌, Text, count_where, update_where, arith, if◌then◌else◌,
}
use sub_manager.Base.Rows.{find-update, map_option, test_of_find, find_of_exists}
use sub_manager.Clock.{Time}
use sub_manager.Store.Tables.{is_file, opt_eq, SubscriptionRow, FileRow, StatRow, Db, has_file}
use sub_manager.Store.Statements.{is_pair}
use sub_manager.Store.Access.{count_fetch, count_download, count_stat, first_stat}

-- How often a file was fetched through a subscription.
unfoldable pub pair_downloads : ℕ → ℕ → List StatRow → ℕ
pair_downloads file sub [] = 0
pair_downloads file sub (t ∷ ts) =
    let rest = pair_downloads file sub ts in
    if is_pair file sub t then t.download_count + rest else rest

-- The numbers that are kept of the subscription `k` and of the file `f`; 0 where there is none.
abbrev pub fetches_of : Option SubscriptionRow → ℕ
fetches_of none = 0
fetches_of (some s) = s.fetch_count

abbrev pub present_fetches_of : Option SubscriptionRow → ℕ
present_fetches_of none = 0
present_fetches_of (some s) = s.current_fetch_count

abbrev pub last_fetch_of : Option SubscriptionRow → Option (Option Time × Text)
last_fetch_of none = none
last_fetch_of (some s) = some (s.last_fetched_at, s.last_fetched_ip)

abbrev pub downloads_of : Option FileRow → ℕ
downloads_of none = 0
downloads_of (some f) = f.download_count

abbrev pub last_download_of : Option FileRow → Option (Option Time × Text)
last_download_of none = none
last_download_of (some f) = some (f.last_downloaded_at, f.last_downloaded_ip)

abbrev pub subscription_row : ℕ → Db → Option SubscriptionRow
subscription_row k d = find (λ s. s.id == k) d.subscriptions

abbrev pub stored_file_row : ℕ → Db → Option FileRow
stored_file_row f d = find (λ r. r.id == f) d.files

module _ (file sub : ℕ) (now : Time) (ip : Text) (f k : ℕ) where
  pub downloads-snoc :
      (ts : List StatRow)
      → pair_downloads f k (ts ++ first_stat file sub now ip ∷ [])
        ≡ pair_downloads f k ts + (if f == file && k == sub then 1 else 0)
  unfolding pair_downloads
  downloads-snoc [] = ground arith
  downloads-snoc (t ∷ ts) = ground (arith, downloads-snoc ts)

  pub downloads-update :
      (ts : List StatRow)
      → pair_downloads f k (update_where (is_pair file sub) (count_stat now ip) ts)
        ≡ pair_downloads f k ts
          + (if f == file && k == sub then count_where (is_pair file sub) ts else 0)
  unfolding pair_downloads
  downloads-update [] = ground arith
  downloads-update (t ∷ ts) = ground (arith, downloads-update ts)

-- What the UPDATE of `subscriptions` counts.
module _ (sub file revision : ℕ) (now : Time) (ip : Text) (subs : List SubscriptionRow)
    (row : SubscriptionRow) (found : find (λ s. s.id == sub) subs ≡ some row) where
  abbrev fetched : List SubscriptionRow
  fetched = update_where (λ s. s.id == sub) (count_fetch file revision now ip) subs

  find-fetched :
      (k : ℕ)
      → find (λ s. s.id == k) fetched
        ≡ map_option
            (λ s. if s.id == sub then count_fetch file revision now ip s else s)
            (find (λ s. s.id == k) subs)
  find-fetched k =
      find-update (λ s. s.id == k) (λ s. s.id == sub) (count_fetch file revision now ip) subs
        (λ s. refl)

  pub fetched_counts :
      (k : ℕ)
      → (fetches_of (find (λ s. s.id == k) fetched)
          ≡ fetches_of (find (λ s. s.id == k) subs) + (if k == sub then 1 else 0))
        × (present_fetches_of (find (λ s. s.id == k) fetched)
            ≡ present_fetches_of (find (λ s. s.id == k) subs)
              + (if k == sub
                    && (is_file row.kind
                        && opt_eq row.file_id file
                        && row.file_revision == revision)
                  then 1
                  else 0))
        × (last_fetch_of (find (λ s. s.id == k) fetched) ≡ (
            if k == sub then some (some now, ip) else last_fetch_of (find (λ s. s.id == k) subs)))
  fetched_counts k = rw (find-fetched k) (counts (find (λ s. s.id == k) subs) refl)
    where
      here : (k == sub) ≡ true → find (λ s. s.id == k) subs ≡ some row
      here same =
          subst (λ n. find (λ s. s.id == n) subs ≡ some row) (sym ((==_iff k sub).0 same)) found

      counts :
          (o : Option SubscriptionRow)
          → find (λ s. s.id == k) subs ≡ o
          → let o' =
              map_option (λ s. if s.id == sub then count_fetch file revision now ip s else s) o in
            (fetches_of o' ≡ fetches_of o + (if k == sub then 1 else 0))
            × (present_fetches_of o'
                ≡ present_fetches_of o
                  + (if k == sub
                        && (is_file row.kind
                            && opt_eq row.file_id file
                            && row.file_revision == revision)
                      then 1
                      else 0))
            × (last_fetch_of o' ≡ (if k == sub then some (some now, ip) else last_fetch_of o))
      counts none e = elim (Bool-cases (k == sub)) [
        | inl same ↦ absurd (ground (arith, here same))
        | inr apart ↦ rw apart (omega arith, omega arith, refl)
      ]
      counts (some s) e =
          let id : s.id ≡ k = (==_iff s.id k).0 (test_of_find (λ s. s.id == k) subs s e) in
          elim (Bool-cases (k == sub)) [
            | inl same ↦
                let found_row : s ≡ row = some-injective s row (sym e ∙ here same) in
                rw (id, same, found_row) (omega arith, ground arith, refl)
            | inr apart ↦ rw (id, apart) (omega arith, omega arith, refl)
          ]

module _ (file : ℕ) (now : Time) (ip : Text) (files : List FileRow) where
  abbrev downloaded : List FileRow
  downloaded = update_where (λ r. r.id == file) (count_download now ip) files

  pub downloaded_counts :
      has_file file files ≡ true
      → (f : ℕ)
      → (downloads_of (find (λ r. r.id == f) downloaded)
          ≡ downloads_of (find (λ r. r.id == f) files) + (if f == file then 1 else 0))
        × (last_download_of (find (λ r. r.id == f) downloaded) ≡ (
            if f == file
            then some (some now, ip)
            else last_download_of (find (λ r. r.id == f) files)))
  downloaded_counts there f =
      rw
        (find-update (λ r. r.id == f) (λ r. r.id == file) (count_download now ip) files (λ r. refl))
        (counts (find (λ r. r.id == f) files) refl)
    where
      counts :
          (o : Option FileRow)
          → find (λ r. r.id == f) files ≡ o
          → let o' = map_option (λ r. if r.id == file then count_download now ip r else r) o in
            (downloads_of o' ≡ downloads_of o + (if f == file then 1 else 0))
            × (last_download_of o'
                ≡ (if f == file then some (some now, ip) else last_download_of o))
      counts none e = elim (Bool-cases (f == file)) [
        | inl same ↦
            let (r, kept) =
              find_of_exists (λ r. r.id == f) files
                (subst (λ n. has_file n files ≡ true) (sym ((==_iff f file).0 same)) there) in
            absurd (ground (arith, kept))
        | inr apart ↦ rw apart (omega arith, refl)
      ]
      counts (some r) e =
          let id : r.id ≡ f = (==_iff r.id f).0 (test_of_find (λ r. r.id == f) files r e) in
          elim (Bool-cases (f == file)) [
            | inl same ↦ rw (id, same) (omega arith, refl)
            | inr apart ↦ rw (id, apart) (omega arith, refl)
          ]
