-- ===== src/Timer/Tests.antt =====
-- The timers at concrete times.
use shproject.Prelude.{ℕ, ◌≡◌, refl, true, arith}
use shproject.Prelude.Int.{is_negative}
use shproject.Timer.{TimerWait, timer_compare}
use shproject.Timer.Order.{timer_compare-wraps}

abbrev at : ℕ → ℕ → TimerWait
at sec nsec = record { time = record { sec = sec; nsec = nsec }; coro = 1 }

timer_compare-wraps_example : is_negative (timer_compare (at 2_147_483_655 0) (at 7 0)) ≡ true
timer_compare-wraps_example = timer_compare-wraps (at 2_147_483_655 0) (at 7 0) 0 refl (omega arith)
