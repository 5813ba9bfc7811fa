-- ===== src/Async/Sleep.antt =====
-- The deadline of async_sleep_relative.
use shproject.Prelude.{ℕ, ◌+◌, ◌*◌, ◌%◌, ◌≤◌, ◌≡◌, arith}
use shproject.Timer.{Timespec, nanos, IsNormal}
use shproject.Async.{sleep_deadline}

-- From a clock reading in normal form, the deadline is exactly the given time later, and its
-- nanoseconds are at most 1000000000.
pub sleep_deadline_lem :
    (now : Timespec) (millisecs : ℕ)
    → IsNormal now
    → (nanos (sleep_deadline now millisecs) ≡ nanos now + millisecs * 1_000_000)
      × ((sleep_deadline now millisecs).nsec ≤ 1_000_000_000)
unfolding sleep_deadline
sleep_deadline_lem now millisecs n = (ground arith, ground arith)

-- When the nanoseconds add up to 1000000000, the deadline is no normal time: nothing is carried.
sleep_deadline-carry :
    (now : Timespec) (millisecs : ℕ)
    → now.nsec + millisecs % 1000 * 1_000_000 ≡ 1_000_000_000
    → ¬ IsNormal (sleep_deadline now millisecs)
unfolding sleep_deadline
sleep_deadline-carry now millisecs e = ground arith
