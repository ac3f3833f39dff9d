-- ===== src/Clock/Order.antt =====
-- How the order of the stored texts is related to that of the instants.
use sub_manager.Base.{ℕ, ◌+◌, ◌*◌, ◌<◌, ◌≤◌, ◌≡◌, true, arith}
use sub_manager.Clock.{Time, nanoseconds, db_time, db_time_lt, text_lt, fraction}

-- A time that is at least a second earlier is earlier as a text.
pub db_time_lt_of_second :
    (a b : Time) → a + nanoseconds ≤ b → db_time_lt (db_time a) (db_time b) ≡ true
unfolding db_time_lt db_time
db_time_lt_of_second a b h = ground arith

-- A text that is earlier stands for a time that is less than a second later.
pub db_time_lt_sound :
    (a b : Time) → db_time_lt (db_time a) (db_time b) ≡ true → a < b + nanoseconds
unfolding db_time_lt db_time
db_time_lt_sound a b h = ground arith

-- A whole second comes behind every later time of the same second.
pub whole_second_last :
    (s n : ℕ)
    → 0 < n
    → n < nanoseconds
    → db_time_lt (db_time (s * nanoseconds + n)) (db_time (s * nanoseconds)) ≡ true
unfolding db_time_lt db_time fraction text_lt
whole_second_last s n p h = ground arith
