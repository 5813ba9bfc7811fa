-- ===== src/Timer/Expiry.antt =====
-- timer_expiration against the order of times.
use shproject.Prelude.{
  ◌+◌, zero, suc, refl, not, ◌<◌, ◌≤◌, ◌≡◌, true, false, arith, if◌then◌else◌, some,
}
use shproject.Prelude.Int.{ℤ, pos, negsuc, is_negative, is_positive}
use shproject.Timer.{Timespec, TimerWait, is_zero, timer_expiration, poll_timeout, nanos, IsNormal}

-- A timer that counts as expired, its expiration being at most 0, has less than one millisecond to
-- go.
timer_expiration-early :
    (now : Timespec) (t : TimerWait)
    → IsNormal now
    → IsNormal t.time
    → is_positive (timer_expiration now t) ≡ false
    → nanos t.time < nanos now + 1_000_000
unfolding timer_expiration
timer_expiration-early now t p q e = ground arith

-- A timer whose time has come counts as expired.
pub timer_expiration-due :
    (now : Timespec) (t : TimerWait)
    → IsNormal now
    → IsNormal t.time
    → nanos t.time ≤ nanos now
    → is_positive (timer_expiration now t) ≡ false
unfolding timer_expiration
timer_expiration-due now t p q e = ground arith

-- The timeout of the poll, with no coroutine ready and a timer, is 0 exactly if the timer counts as
-- expired: the poll neither blocks past it nor is asked again and again before it.
poll_timeout-expired :
    (now : Timespec) (t : TimerWait)
    → is_zero (poll_timeout true (some t) now) ≡ not (is_positive (timer_expiration now t))
unfolding poll_timeout
poll_timeout-expired now t = zero_cases (timer_expiration now t)
  where
    zero_cases : (z : ℤ) → is_zero (if is_negative z then pos 0 else z) ≡ not (is_positive z)
    zero_cases (pos zero) = refl
    zero_cases (pos (suc n)) = ground arith
    zero_cases (negsuc n) = refl
