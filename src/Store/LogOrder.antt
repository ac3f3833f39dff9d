-- ===== src/Store/LogOrder.antt =====
-- The order of the access logs (ORDER BY of `AccessLogs` in internal/app/store.go), and which rows
-- the sorted list has.
use sub_manager.Base.{
  ◌+◌, ◌≤◌, ◌≡◌, refl, Bool, true, false, ◌&&◌, List, [], ◌∷◌, Text, map, select, count_where, ◌⊎◌,
  inl, inr, arith, if◌then◌else◌, Bool-cases,
}
use sub_manager.Base.Rows.{All, All-map}
use sub_manager.Clock.{DbTime, db_time, db_time_lt, text_lt}
use sub_manager.Store.Tables.{LogRow}
use sub_manager.Store.Access.{AccessLog, scan_log, log_before, insert_log_sorted, sort_logs}

text_lt_asym : (a b : Text) → text_lt a b ≡ true → text_lt b a ≡ false
unfolding text_lt
text_lt_asym [] [] h = ground arith
text_lt_asym [] (y ∷ b) h = ground arith
text_lt_asym (x ∷ a) [] h = ground arith
text_lt_asym (x ∷ a) (y ∷ b) h = ground (arith, text_lt_asym a b)

text_le_trans : (a b c : Text) → text_lt a b ≡ false → text_lt b c ≡ false → text_lt a c ≡ false
unfolding text_lt
text_le_trans [] [] c h k = ground arith
text_le_trans [] (y ∷ b) c h k = ground arith
text_le_trans (x ∷ a) [] [] h k = ground arith
text_le_trans (x ∷ a) [] (z ∷ c) h k = ground arith
text_le_trans (x ∷ a) (y ∷ b) [] h k = ground arith
text_le_trans (x ∷ a) (y ∷ b) (z ∷ c) h k = ground (arith, text_le_trans a b c)

db_time_lt_asym : (a b : DbTime) → db_time_lt a b ≡ true → db_time_lt b a ≡ false
unfolding db_time_lt
db_time_lt_asym a b h = ground (arith, text_lt_asym a.rest b.rest)

db_time_le_trans :
    (a b c : DbTime) → db_time_lt a b ≡ false → db_time_lt b c ≡ false → db_time_lt a c ≡ false
unfolding db_time_lt
db_time_le_trans a b c h k = ground (arith, text_le_trans a.rest b.rest c.rest)

-- The first log has the later stored time, or the same one and no smaller id.
abbrev pub Newer : AccessLog → AccessLog → Type 0
Newer l m =
    (db_time_lt (db_time m.requested_at) (db_time l.requested_at) ≡ true)
    ⊎ ((db_time_lt (db_time l.requested_at) (db_time m.requested_at) ≡ false) × (m.id ≤ l.id))

-- Every log is newer than all that stand behind it.
abbrev pub NewestFirst : List AccessLog → Type 0
NewestFirst [] = Unit
NewestFirst (l ∷ ls) = All (Newer l) ls × NewestFirst ls

abbrev scanned : List LogRow → List AccessLog
scanned ls = map scan_log ls

Newer-trans : (l m k : AccessLog) → Newer l m → Newer m k → Newer l k
Newer-trans l m k h i =
    let tl = db_time l.requested_at in
    let tm = db_time m.requested_at in
    let tk = db_time k.requested_at in
    elim (Bool-cases (db_time_lt tk tl)) [
      | inl later ↦ inl later
      | inr other ↦ inr (
          ground (
            arith,
            db_time_lt_asym tm tl,
            db_time_lt_asym tk tm,
            db_time_le_trans tk tl tm,
            db_time_le_trans tm tk tl,
            db_time_le_trans tl tm tk,
          ))
    ]

log_before-Newer : (l m : LogRow) → log_before l m ≡ true → Newer (scan_log l) (scan_log m)
unfolding log_before
log_before-Newer l m h =
    elim (Bool-cases (db_time_lt (db_time m.requested_at) (db_time l.requested_at))) [
      | inl later ↦ inl later
      | inr other ↦ inr (ground arith)
    ]

log_before-Newer_back : (l m : LogRow) → log_before l m ≡ false → Newer (scan_log m) (scan_log l)
unfolding log_before
log_before-Newer_back l m h =
    elim (Bool-cases (db_time_lt (db_time l.requested_at) (db_time m.requested_at))) [
      | inl later ↦ inl later
      | inr other ↦ inr (ground arith)
    ]

insert-All :
    (k : AccessLog) (l : LogRow) (ls : List LogRow)
    → Newer k (scan_log l)
    → All (Newer k) (scanned ls)
    → All (Newer k) (scanned (insert_log_sorted l ls))
unfolding insert_log_sorted
insert-All k l [] h a = (h, tt)
insert-All k l (m ∷ ms) h a = elim (Bool-cases (log_before l m)) [
  | inl before ↦ rw before (h, a)
  | inr behind ↦ rw behind (a.0, insert-All k l ms h a.1)
]

insert-NewestFirst :
    (l : LogRow) (ls : List LogRow)
    → NewestFirst (scanned ls)
    → NewestFirst (scanned (insert_log_sorted l ls))
unfolding insert_log_sorted
insert-NewestFirst l [] d = (tt, tt)
insert-NewestFirst l (m ∷ ms) d = elim (Bool-cases (log_before l m)) [
  | inl before ↦
      let newer = log_before-Newer l m before in
      rw before (
        (
          newer,
          All-map (Newer (scan_log m)) (Newer (scan_log l)) (scanned ms)
              (λ k. Newer-trans (scan_log l) (scan_log m) k newer) d.0,
        ),
        d,
      )
  | inr behind ↦ rw behind (
    insert-All (scan_log m) l ms (log_before-Newer_back l m behind) d.0,
    insert-NewestFirst l ms d.1,
  )
]

pub sort_logs-NewestFirst : (ls : List LogRow) → NewestFirst (scanned (sort_logs ls))
unfolding sort_logs
sort_logs-NewestFirst [] = tt
sort_logs-NewestFirst (l ∷ ls) = insert-NewestFirst l (sort_logs ls) (sort_logs-NewestFirst ls)

module _ (p : AccessLog → Bool) where
  count-insert :
      (l : LogRow) (ls : List LogRow)
      → count_where p (scanned (insert_log_sorted l ls))
        ≡ (if p (scan_log l) then 1 else 0) + count_where p (scanned ls)
  unfolding insert_log_sorted
  count-insert l [] = refl
  count-insert l (m ∷ ms) = ground (arith, count-insert l ms)

  pub count-sort_logs :
      (ls : List LogRow) → count_where p (scanned (sort_logs ls)) ≡ count_where p (scanned ls)
  unfolding sort_logs
  count-sort_logs [] = refl
  count-sort_logs (l ∷ ls) = ground (arith, count-insert l (sort_logs ls), count-sort_logs ls)

  pub count-scanned-select :
      (q : LogRow → Bool) (ls : List LogRow)
      → count_where p (scanned (select q ls)) ≡ count_where (λ l. q l && p (scan_log l)) ls
  count-scanned-select q [] = refl
  count-scanned-select q (l ∷ ls) = ground (arith, count-scanned-select q ls)
