-- ===== src/Limiter/Tests.antt =====
-- The limiter at concrete instants, and its theorems applied.
use sub_manager.Base.{◌*◌, ◌≡◌, refl, false, List, [], ◌∷◌, Text, codes, arith}
use sub_manager.Base.Dict.{lookup}
use sub_manager.Clock.{Time, second}
use sub_manager.Limiter.{allowed, attempt, fails, new_login_limiter, zero_attempt}
use sub_manager.Limiter.Lockout.{lockout_exact}

abbrev here : Text
here = codes "1.2.3.4"

abbrev there : Text
there = codes "5.6.7.8"

-- Four more failures after the first, one a second.
abbrev more : List Time
more = 2 * second ∷ 3 * second ∷ 4 * second ∷ 5 * second ∷ []

fresh : attempt new_login_limiter here ≡ zero_attempt
unfolding attempt lookup
fresh = refl

lockout_example : allowed (fails new_login_limiter here (second ∷ more)) here (6 * second) ≡ false
lockout_example =
    lockout_exact new_login_limiter here second more (6 * second) fresh (omega arith) (ground arith)
