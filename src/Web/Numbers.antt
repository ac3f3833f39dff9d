-- ===== src/Web/Numbers.antt =====
-- Package strconv as the handlers use it. A number below 0 is no number here: all callers refuse it, or
-- take it for 0 or 1 as they do an error.
use sub_manager.Base.{
  ℕ, ◌+◌, ◌-◌, ◌*◌, ◌^◌, ◌==◌, ltb, leb, ◌&&◌, Option, none, some, [], ◌∷◌, Text, is_empty,
  if◌then◌else◌,
}

-- The value of some digits behind those read so far.
unfoldable pub digits_from : ℕ → Text → Option ℕ
digits_from n [] = some n
digits_from n (c ∷ s) =
    let rest = digits_from (n * 10 + (c - 48)) s in if leb b'0' c && leb c b'9' then rest else none

abbrev pub unsigned : Text → Option ℕ
unsigned s = if is_empty s then none else digits_from 0 s

abbrev pub negated : Option ℕ → Option ℕ
negated none = none
negated (some n) = if n == 0 then some 0 else none

abbrev pub parse_signed : Text → Option ℕ
parse_signed [] = none
parse_signed (c ∷ s) =
    if c == b'-' then negated (unsigned s) else if c == b'+' then unsigned s else unsigned (c ∷ s)

-- `strconv.Atoi`. A number beyond int64 is an error there; here it is beyond the bound that the one
-- caller checks.
unfoldable pub parse_retention : Text → Option ℕ
parse_retention s = parse_signed s

abbrev pub in_int64 : Option ℕ → Option ℕ
in_int64 none = none
in_int64 (some n) = if ltb n (2 ^ 63) then some n else none

abbrev pub positive : Option ℕ → Option ℕ
positive none = none
positive (some n) = if ltb n 1 then none else some n

-- `strconv.ParseInt(s, 10, 64)` and the test for a number of 1 or more: `parseID`, and the ids of a
-- batch.
unfoldable pub parse_id : Text → Option ℕ
parse_id s = positive (in_int64 (parse_signed s))

abbrev page_or_zero : Option ℕ → ℕ
page_or_zero none = 0
page_or_zero (some n) = n

-- `strconv.Atoi` with the error dropped. For a number beyond int64 it returns the largest one.
abbrev at_most_max : Option ℕ → Option ℕ
at_most_max none = none
at_most_max (some n) = some (if ltb n (2 ^ 63) then n else 2 ^ 63 - 1)

unfoldable pub parse_page : Text → ℕ
parse_page s = page_or_zero (at_most_max (parse_signed s))
