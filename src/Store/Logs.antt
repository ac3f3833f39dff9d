-- ===== src/Store/Logs.antt =====
-- The pages of the access log (`AccessLogs` of internal/app/store.go).
use mathlib.Core.List.{map-append}
use native.Mathlib.Nat.{mod-eq_of_lt, zero-add, zero-mul, suc-mul, div-add-mod', mod-lt}
use sub_manager.Base.{
  ℕ, zero, suc, ◌+◌, ◌-◌, ◌*◌, ◌/◌, ◌^◌, ◌≤◌, ◌<◌, ◌≡◌, ◌∙◌, sym, ap, refl, Bool, ◌&&◌, ◌||◌, ltb,
  List, [], ◌∷◌, ◌++◌, map, Text, length, take, drop, select, count_where, length-select, ◌==◌,
  is_empty, text_eq, arith, if◌then◌else◌,
}
use sub_manager.Store.Tables.{LogRow, Db}
use sub_manager.Store.Access.{
  AccessLog, scan_log, access_logs, log_matches, log_offset, sort_logs, insert_log_sorted, like,
}
use sub_manager.Store.LogOrder.{
  NewestFirst, sort_logs-NewestFirst, count-sort_logs, count-scanned-select,
}

length-insert_log_sorted :
    (l : LogRow) (ls : List LogRow) → length (insert_log_sorted l ls) ≡ length ls + 1
unfolding insert_log_sorted
length-insert_log_sorted l [] = refl
length-insert_log_sorted l (m ∷ ms) = ground (arith, length-insert_log_sorted l ms)

length-sort_logs : (ls : List LogRow) → length (sort_logs ls) ≡ length ls
unfolding sort_logs
length-sort_logs [] = refl
length-sort_logs (l ∷ ls) =
    omega (arith, length-insert_log_sorted l (sort_logs ls), length-sort_logs ls)

length-map {ℓ κ} :
    {A : Type ℓ} {B : Type κ} (f : A → B) (xs : List A) → length (map f xs) ≡ length xs
length-map f [] = refl
length-map f (x ∷ xs) = ap suc (length-map f xs)

take_all {ℓ} : {A : Type ℓ} (n : ℕ) (xs : List A) → length xs ≤ n → take n xs ≡ xs
take_all zero [] h = refl
take_all zero (x ∷ xs) h = absurd (omega arith)
take_all (suc n) [] h = refl
take_all (suc n) (x ∷ xs) h = ap (λ l. x ∷ l) (take_all n xs (omega arith))

take_nil {ℓ} : {A : Type ℓ} (n : ℕ) → take {A = A} n [] ≡ []
take_nil zero = refl
take_nil (suc n) = refl

suc-add : (m n : ℕ) → suc m + n ≡ suc (m + n)
suc-add m n = omega arith

take-take-drop {ℓ} :
    {A : Type ℓ} (m n : ℕ) (xs : List A) → take m xs ++ take n (drop m xs) ≡ take (m + n) xs
take-take-drop zero n xs = rw (zero-add n)
take-take-drop (suc m) n [] = take_nil n ∙ sym (take_nil (suc m + n))
take-take-drop (suc m) n (x ∷ xs) = rw (suc-add m n) (ap (λ l. x ∷ l) (take-take-drop m n xs))

count-le-length {ℓ} : {A : Type ℓ} (p : A → Bool) (xs : List A) → count_where p xs ≤ length xs
count-le-length p [] = omega arith
count-le-length p (x ∷ xs) = ground (arith, count-le-length p xs)

-- The pages 1 to `k`, one after another.
pub first_pages : ℕ → Text → Text → ℕ → ℕ → Db → List AccessLog
first_pages sub ip client size zero d = []
first_pages sub ip client size (suc k) d =
    first_pages sub ip client size k d ++ (access_logs sub (suc k) size ip client d).logs

module _ (sub : ℕ) (ip client : Text) (size : ℕ) (d : Db) (small : 0 < size)
    (bounded : size ≤ 200) where
  abbrev matching : List LogRow
  matching = select (log_matches sub ip client) d.logs

  page_rows :
      (k : ℕ)
      → k * size < 2 ^ 63
      → (access_logs sub (suc k) size ip client d).logs
        ≡ map scan_log (take size (drop (k * size) (sort_logs matching)))
  unfolding access_logs log_offset
  page_rows k h = ground (arith, mod-eq_of_lt {n = k * size} {m = 2 ^ 64})

  pages_take :
      (k : ℕ)
      → k * size < 2 ^ 63
      → first_pages sub ip client size k d ≡ map scan_log (take (k * size) (sort_logs matching))
  unfolding first_pages
  pages_take zero h = rw (zero-mul size)
  pages_take (suc k) h =
      rw (pages_take k (grind arith), page_rows k (grind arith), ← map-append)
        (ap (map scan_log) (
          take-take-drop (k * size) size (sort_logs matching)
          ∙ ap (λ n. take n (sort_logs matching)) (sym (suc-mul k size))))

  enough_pages :
      (t : ℕ)
      → let n = if ltb 0 t then (t + size - 1) / size else 0 in
        (t ≤ n * size) × (n * size < t + size)
  enough_pages zero = rw (zero-mul size) (omega arith)
  enough_pages (suc t) =
      grind (arith, div-add-mod' (suc t + size - 1) size, mod-lt (suc t + size - 1) small)

  page_totals :
      (page : ℕ)
      → ((access_logs sub page size ip client d).total ≡ length matching)
        × ((access_logs sub page size ip client d).total_pages
            ≡ (if ltb 0 (length matching) then (length matching + size - 1) / size else 0))
  unfolding access_logs
  page_totals page = ground arith

  all_pages :
      length d.logs < 2 ^ 62
      → first_pages sub ip client size (access_logs sub 1 size ip client d).total_pages d
        ≡ map scan_log (sort_logs matching)
  all_pages h =
      let total = length matching in
      let few : total ≤ length d.logs = omega (
        arith,
        length-select (log_matches sub ip client) d.logs,
        count-le-length (log_matches sub ip client) d.logs,
      ) in
      let (enough, tight) = enough_pages total in
      rw (page_totals 1).1 (
        pages_take (if ltb 0 total then (total + size - 1) / size else 0) (omega arith)
        ∙ ap (map scan_log)
            (take_all _ (sort_logs matching) (omega (arith, length-sort_logs matching))))

  -- With a page size from 1 to 200, and fewer than 2 ^ 62 logs, the pages from the first to the last
  -- hold the logs of the subscription that the filters let through, and no other, each as often as it
  -- is stored (whatever test `p` on logs is counted); over all pages, a log stands before another only
  -- if its stored time is the later one, or the same and its id not the smaller one; and the total is
  -- their number.
  pub pages_complete :
      (p : AccessLog → Bool)
      → length d.logs < 2 ^ 62
      → let page = access_logs sub 1 size ip client d in
        let all = first_pages sub ip client size page.total_pages d in
        NewestFirst all
        × (count_where p all
            ≡ count_where
                (λ l.
                  (l.subscription_id == sub
                    && (is_empty ip || like (b'%' ∷ (ip ++ b'%' ∷ [])) l.client_ip)
                    && (is_empty client || text_eq l.client_name client))
                  && p (scan_log l))
                d.logs)
        × (page.total ≡ length all)
  unfolding log_matches
  pages_complete p h = rw (all_pages h) (
    sort_logs-NewestFirst matching,
    count-sort_logs p matching ∙ count-scanned-select p (log_matches sub ip client) d.logs,
    (page_totals 1).0 ∙ sym (length-map scan_log (sort_logs matching) ∙ length-sort_logs matching),
  )
