-- ===== src/Clock/Parse.antt =====
-- `parseDBTime` reads back what `dbTime` wrote.
use sub_manager.Base.{
  ℕ, zero, suc, ◌+◌, ◌-◌, ◌*◌, ◌/◌, ◌%◌, ◌^◌, ◌<◌, ◌==◌, leb, ◌≡◌, ◌&&◌, Option, none, some, [],
  ◌∷◌, ◌++◌, Text, arith, if◌then◌else◌, is_empty,
}
use native.Mathlib.Nat.{pow-suc, div-add-mod, div-lt_iff_lt-mul}
use sub_manager.Clock.{Time, nanoseconds, DbTime, fraction_digits, fraction, db_time}

abbrev plus : ℕ → Option ℕ → Option ℕ
plus a none = none
plus a (some b) = some (a + b)

-- The digits behind the point and the closing `Z`: `k` digits may still come.
unfoldable pub parse_digits : ℕ → Text → Option ℕ
parse_digits k [] = none
parse_digits zero (c ∷ s) = if c == b'Z' && is_empty s then some 0 else none
parse_digits (suc k) (c ∷ s) =
    let rest = parse_digits k s in
    if leb b'0' c && leb c b'9'
    then plus ((c - 48) * 10 ^ k) rest
    else if c == b'Z' && is_empty s
    then some 0
    else none

unfoldable pub parse_fraction : Text → Option ℕ
parse_fraction [] = none
parse_fraction (c ∷ s) =
    if c == b'.' then parse_digits 9 s else if c == b'Z' && is_empty s then some 0 else none

unfoldable pub parse_db_time : DbTime → Option Time
parse_db_time d = plus (d.seconds * nanoseconds) (parse_fraction d.rest)

pow_pos : (k : ℕ) → 0 < 10 ^ k
pow_pos zero = omega arith
pow_pos (suc k) = rw (pow-suc 10 k) (grind (arith, pow_pos k))

first_digit : (k n : ℕ) → n < 10 ^ suc k → n / 10 ^ k < 10
first_digit k n h = (div-lt_iff_lt-mul (pow_pos k)).1 (omega (arith, pow-suc 10 k))

parse_digits-fraction_digits :
    (k n : ℕ) → n < 10 ^ k → parse_digits k (fraction_digits k n ++ b'Z' ∷ []) ≡ some n
unfolding parse_digits fraction_digits
parse_digits-fraction_digits zero n h = ground arith
parse_digits-fraction_digits (suc k) n h = ground (
  arith,
  parse_digits-fraction_digits k (n % 10 ^ k),
  pow-suc 10 k,
  pow_pos k,
  div-add-mod n (10 ^ k),
  first_digit k n,
)

parse_fraction-fraction : (n : ℕ) → n < nanoseconds → parse_fraction (fraction n) ≡ some n
unfolding parse_fraction fraction
parse_fraction-fraction n h = ground (arith, parse_digits-fraction_digits 9 n)

-- The time that `dbTime` wrote is read back exactly, to the nanosecond.
pub parse_db_time-db_time : (t : Time) → parse_db_time (db_time t) ≡ some t
unfolding parse_db_time db_time
parse_db_time-db_time t = ground (arith, parse_fraction-fraction (t % nanoseconds))
