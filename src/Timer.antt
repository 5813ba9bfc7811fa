-- ===== src/Timer.antt =====
-- The timers of scheduler.c: their comparator, their expiration and the timeout of the poll.
-- Times are not before 1970, and differences of seconds fit a `long`. What clock_gettime
-- returns is an argument.
pub mod Order
pub mod Expiry
mod Tests
use shproject.Prelude.{
  ℕ, ◌+◌, ◌*◌, ◌<◌, Bool, true, false, not, Option, none, some, ◌==◌, if◌then◌else◌,
}
use shproject.Prelude.Int.{ℤ, pos, negsuc, is_negative, sub_ℕ, ◌+ℤ◌, scale, quot, to_int}

-- `struct timespec`
pub record Timespec : Type 0 where
  pub sec : ℕ
  pub nsec : ℕ

-- `struct timer_wait`; a coroutine is named by its address.
pub record TimerWait : Type 0 where
  pub time : Timespec
  pub coro : ℕ

abbrev pub is_zero : ℤ → Bool
is_zero (pos n) = n == 0
is_zero (negsuc n) = false

-- Both results are of type `long`, and the function returns an `int`.
unfoldable pub timer_compare : TimerWait → TimerWait → ℤ
unfolding to_int
timer_compare t1 t2 =
    let seconds = sub_ℕ t1.time.sec t2.time.sec in
    if not (is_zero seconds) then to_int seconds else to_int (sub_ℕ t1.time.nsec t2.time.nsec)

unfoldable pub timer_expiration : Timespec → TimerWait → ℤ
unfolding ◌+ℤ◌ scale quot
timer_expiration now timer =
    scale (sub_ℕ timer.time.sec now.sec) 1000 +ℤ quot (sub_ℕ timer.time.nsec now.nsec) 1_000_000

-- The two conditions of sched_poll_timeout are arguments: whether the run list is empty, and the
-- soonest timer.
unfoldable pub poll_timeout : Bool → Option TimerWait → Timespec → ℤ
unfolding timer_expiration
poll_timeout false timer now = pos 0
poll_timeout true none now = negsuc 0
poll_timeout true (some timer) now =
    let expiration = timer_expiration now timer in
    if is_negative expiration then pos 0 else expiration

-- Nanoseconds since 1970.
abbrev pub nanos : Timespec → ℕ
nanos t = t.sec * 1_000_000_000 + t.nsec

abbrev pub IsNormal : Timespec → Type 0
IsNormal t = t.nsec < 1_000_000_000
