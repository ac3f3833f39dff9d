-- ===== src/Clock/Tests.antt =====
-- Stored times at concrete instants, and the theorems on them applied.
use sub_manager.Base.{◌+◌, ◌*◌, ◌≡◌, refl, true, some, codes, arith}
use sub_manager.Clock.{db_time, db_time_lt, nanoseconds, fraction, fraction_digits}
use sub_manager.Clock.Order.{whole_second_last}
use sub_manager.Clock.Parse.{parse_db_time, parse_db_time-db_time}

trimmed : (db_time 7_500_000_000).rest ≡ codes ".5Z"
unfolding db_time fraction fraction_digits
trimmed = refl

parse_db_time_example : parse_db_time (db_time 7_500_000_001) ≡ some 7_500_000_001
parse_db_time_example = parse_db_time-db_time 7_500_000_001

earlier_text : db_time_lt (db_time 7_500_000_000) (db_time 7_000_000_000) ≡ true
earlier_text = whole_second_last 7 500_000_000 (omega arith) (omega arith)

whole_second_example : db_time_lt (db_time (7 * nanoseconds + 1)) (db_time (7 * nanoseconds)) ≡ true
whole_second_example = whole_second_last 7 1 (omega arith) (omega arith)
