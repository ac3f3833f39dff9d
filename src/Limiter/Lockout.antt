-- ===== src/Limiter/Lockout.antt =====
-- When the limiter refuses an address, and what the calls for other addresses leave alone.
use sub_manager.Base.{
  ℕ, suc, ◌+◌, ◌≤◌, ◌<◌, ◌≡◌, ◌≢◌, true, leb, ltb, ◌||◌, List, [], ◌∷◌, Text, length, arith,
  text_eq, text_eq_iff, text_eq_refl, if◌then◌else◌,
}
use sub_manager.Base.Dict.{lookup-insert, lookup-erase}
use sub_manager.Clock.{Time}
use sub_manager.Limiter.{
  LoginAttempt, LoginLimiter, zero_attempt, attempt, allowed, window, count_failure, fail, success,
  fails, lock_window,
}

attempt-fail :
    (l : LoginLimiter) (ip j : Text) (now : Time)
    → attempt (fail l ip now) j
      ≡ (if text_eq ip j then count_failure (window (attempt l ip) now) now else attempt l j)
unfolding attempt fail
attempt-fail l ip j now =
    ground (arith, lookup-insert ip j (count_failure (window (attempt l ip) now) now) l)

attempt-success :
    (l : LoginLimiter) (ip j : Text)
    → attempt (success l ip) j ≡ (if text_eq ip j then zero_attempt else attempt l j)
unfolding attempt success
attempt-success l ip j = ground (arith, lookup-erase ip j l)

-- Failures and a success of one address do not change what another address is allowed.
pub allowed_others :
    (l : LoginLimiter) (ip j : Text) (t now : Time)
    → ip ≢ j
    → (allowed (fail l ip t) j now ≡ allowed l j now)
      × (allowed (success l ip) j now ≡ allowed l j now)
unfolding allowed
allowed_others l ip j t now h =
    ground (arith, attempt-fail l ip j t, attempt-success l ip j, text_eq_iff ip j)

-- The failures `ts` come in order, from `t` on, and within the window that begins at `start`.
abbrev pub InWindow : Time → Time → List Time → Type 0
InWindow start t [] = Unit
InWindow start t (u ∷ us) = (t ≤ u) × (u ≤ start + lock_window) × InWindow start u us

-- The last of some failures, the first of which is at `t`.
abbrev pub last_failure : Time → List Time → Time
last_failure t [] = t
last_failure t (u ∷ us) = last_failure u us

-- What the limiter holds after `n` failures in one window, the last of them at `last`.
record IsCounted (a : LoginAttempt) (n : ℕ) (start last : Time) : Type 0 where
  counted : a.count ≡ n
  started : a.window_start ≡ start
  ordered : start ≤ last
  locked : a.locked_until ≡ (if leb 5 n then last + lock_window else 0)

count_failure-IsCounted :
    (a : LoginAttempt) (n : ℕ) (start last now : Time)
    → 0 < start
    → last ≤ now
    → now ≤ start + lock_window
    → IsCounted a n start last
    → IsCounted (count_failure (window a now) now) (n + 1) start now
unfolding count_failure window
count_failure-IsCounted a n start last now pos h k c = ground arith

succ_shift : (n k : ℕ) → n + suc k ≡ (n + 1) + k
succ_shift n k = omega arith

fail-IsCounted :
    (l : LoginLimiter) (ip : Text) (n : ℕ) (start last now : Time)
    → 0 < start
    → last ≤ now
    → now ≤ start + lock_window
    → IsCounted (attempt l ip) n start last
    → IsCounted (attempt (fail l ip now) ip) (n + 1) start now
fail-IsCounted l ip n start last now pos h k c =
    rw (attempt-fail l ip ip now, text_eq_refl ip)
      (count_failure-IsCounted (attempt l ip) n start last now pos h k c)

fails-IsCounted :
    (ts : List Time) (l : LoginLimiter) (ip : Text) (n : ℕ) (start last : Time)
    → 0 < start
    → InWindow start last ts
    → IsCounted (attempt l ip) n start last
    → IsCounted (attempt (fails l ip ts) ip) (n + length ts) start (last_failure last ts)
unfolding fails
fails-IsCounted [] l ip n start last pos h c = ground arith
fails-IsCounted (t ∷ ts) l ip n start last pos h c = rw (succ_shift n (length ts)) (
    fails-IsCounted ts (fail l ip t) ip (n + 1) start t pos h.2
      (fail-IsCounted l ip n start last t pos h.0 h.1 c))

first-IsCounted :
    (l : LoginLimiter) (ip : Text) (t : Time)
    → attempt l ip ≡ zero_attempt
    → 0 < t
    → IsCounted (attempt (fail l ip t) ip) 1 t t
first-IsCounted l ip t fresh pos =
    rw (attempt-fail l ip ip t, text_eq_refl ip, fresh)
      (unfold count_failure window in ground arith)

-- From an address with no failures on record, and with the first one not at the zero time, `suc (length ts)` failures within 15 minutes of the
-- first lock it until 15 minutes after the last one, if they are five or more, and do not lock it
-- otherwise: at any instant `now` the answer is exactly that.
pub lockout_exact :
    (l : LoginLimiter) (ip : Text) (t : Time) (ts : List Time) (now : Time)
    → attempt l ip ≡ zero_attempt
    → 0 < t
    → InWindow t t ts
    → allowed (fails l ip (t ∷ ts)) ip now
      ≡ (ltb (length ts) 4 || leb (last_failure t ts + lock_window) now)
unfolding allowed fails
lockout_exact l ip t ts now fresh pos h =
    ground
      (arith, fails-IsCounted ts (fail l ip t) ip 1 t t pos h (first-IsCounted l ip t fresh pos))

-- A success clears the record of its address: it is allowed at once, whatever the state was, and the
-- next failures are counted as the first ones are.
pub success_clears :
    (l : LoginLimiter) (ip : Text) (now : Time)
    → (allowed (success l ip) ip now ≡ true) × (attempt (success l ip) ip ≡ zero_attempt)
unfolding allowed
success_clears l ip now = ground (arith, attempt-success l ip ip, text_eq_refl ip)
