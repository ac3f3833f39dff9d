-- ===== src/Limiter.antt =====
-- The login limiter of internal/app/app.go. Each method runs under the limiter's mutex, so it is
-- one step; the instant that `time.Now()` returns is an argument.
pub mod Lockout
mod Tests
use sub_manager.Base.{
  ℕ, ◌+◌, ◌-◌, ◌*◌, ltb, leb, ◌==◌, Bool, true, false, not, ◌||◌, Option, none, some, List, [], ◌∷◌,
  Text, if◌then◌else◌,
}
use sub_manager.Base.Dict.{Dict, lookup, insert, erase}
use sub_manager.Clock.{Time, minute}

pub record LoginAttempt : Type 0 where
  pub count : ℕ
  pub window_start : Time
  pub locked_until : Time

-- The zero value, which a read of a missing key yields.
abbrev pub zero_attempt : LoginAttempt
zero_attempt = record { count = 0; window_start = 0; locked_until = 0 }

abbrev pub LoginLimiter : Type 0
LoginLimiter = Dict LoginAttempt

abbrev pub new_login_limiter : LoginLimiter
new_login_limiter = []

abbrev or_zero : Option LoginAttempt → LoginAttempt
or_zero none = zero_attempt
or_zero (some a) = a

unfoldable pub attempt : LoginLimiter → Text → LoginAttempt
attempt l ip = or_zero (lookup ip l)

abbrev pub lock_window : ℕ
lock_window = 15 * minute

unfoldable pub allowed : LoginLimiter → Text → Time → Bool
allowed l ip now = not (ltb now (attempt l ip).locked_until)

-- A window that has not begun or is over is begun anew.
unfoldable pub window : LoginAttempt → Time → LoginAttempt
window a now =
    if a.window_start == 0 || ltb lock_window (now - a.window_start)
    then record { count = 0; window_start = now; locked_until = 0 }
    else a

unfoldable pub count_failure : LoginAttempt → Time → LoginAttempt
count_failure a now =
    if leb 5 (a.count + 1)
    then record a { count = a.count + 1; locked_until = now + lock_window }
    else record a { count = a.count + 1 }

unfoldable pub fail : LoginLimiter → Text → Time → LoginLimiter
unfolding window count_failure
fail l ip now = insert ip (count_failure (window (attempt l ip) now) now) l

unfoldable pub success : LoginLimiter → Text → LoginLimiter
success l ip = erase ip l

-- Failures from one address, one after another.
pub fails : LoginLimiter → Text → List Time → LoginLimiter
fails l ip [] = l
fails l ip (t ∷ ts) = fails (fail l ip t) ip ts
