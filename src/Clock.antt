-- ===== src/Clock.antt =====
-- Times (internal/app/time.go, and `dbTime`, `parseDBTime` of internal/app/store.go). An instant
-- is the number of nanoseconds since Go's zero time, so 0 is `time.Time{}`. A stored time is the
-- text that `Format(time.RFC3339Nano)` makes: the date and time to the second have a fixed width
-- and order as the seconds do, so they stand as the number of the second; the characters behind
-- them, with trailing zeros removed as that layout does, are kept as text.
pub mod Order
pub mod Parse
mod Tests
use sub_manager.Base.{
  ℕ, zero, suc, ◌+◌, ◌-◌, ◌*◌, ◌/◌, ◌%◌, ◌^◌, ◌==◌, ltb, Bool, true, false, List, [], ◌∷◌, ◌++◌,
  Text, if◌then◌else◌,
}

abbrev pub Time : Type 0
Time = ℕ

abbrev pub nanoseconds : ℕ
nanoseconds = 1_000_000_000

abbrev pub second : ℕ
second = nanoseconds

abbrev pub minute : ℕ
minute = 60 * second

abbrev pub hour : ℕ
hour = 60 * minute

-- A `time.Duration` is the bit pattern of its int64.
abbrev pub Duration : Type 0
Duration = ℕ

-- `t.Add(d)`; an instant before Go's zero time reads as the zero time here.
unfoldable pub add_duration : Time → Duration → Time
add_duration t d = if ltb d (2 ^ 63) then t + d else t - (2 ^ 64 - d)

unfoldable pub session_duration : ℕ → Duration
session_duration hours = (hours * hour) % 2 ^ 64

-- `-time.Duration(days) * 24 * time.Hour`
unfoldable pub days_back : ℕ → Duration
days_back days = (2 ^ 64 - (days * 24 * hour) % 2 ^ 64) % 2 ^ 64

pub record DbTime : Type 0 where
  pub seconds : ℕ
  pub rest : Text

-- The digits of `n` below 10 ^ k, the first one first, up to the last that is not 0.
unfoldable pub fraction_digits : ℕ → ℕ → Text
fraction_digits zero n = []
fraction_digits (suc k) n =
    if n == 0 then [] else (48 + n / 10 ^ k) ∷ fraction_digits k (n % 10 ^ k)

unfoldable pub fraction : ℕ → Text
fraction n = if n == 0 then b'Z' ∷ [] else b'.' ∷ (fraction_digits 9 n ++ b'Z' ∷ [])

unfoldable pub db_time : Time → DbTime
db_time t = record { seconds = t / nanoseconds; rest = fraction (t % nanoseconds) }

-- How SQLite compares two texts.
unfoldable pub text_lt : Text → Text → Bool
text_lt [] [] = false
text_lt [] (y ∷ ys) = true
text_lt (x ∷ xs) [] = false
text_lt (x ∷ xs) (y ∷ ys) =
    let rest = text_lt xs ys in if ltb x y then true else if ltb y x then false else rest

-- `a < b` in SQL, on two columns that hold times.
unfoldable pub db_time_lt : DbTime → DbTime → Bool
db_time_lt a b =
    if ltb a.seconds b.seconds
    then true
    else if ltb b.seconds a.seconds
    then false
    else text_lt a.rest b.rest
