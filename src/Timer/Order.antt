-- ===== src/Timer/Order.antt =====
-- timer_compare against the order of times.
use shproject.Prelude.{ℕ, ◌+◌, ◌<◌, ◌≡◌, true, arith, ltb}
use shproject.Prelude.Int.{pos, negsuc, is_negative, is_positive, to_int}
use shproject.Timer.{TimerWait, timer_compare, nanos}
use shproject.Heap.Order.{Agrees}

-- A normal time within 2^31 seconds of 1970.
pub record InEpoch (t : TimerWait) : Type 0 where
  pub normal : t.time.nsec < 1_000_000_000
  pub early : t.time.sec < 0x8000_0000

abbrev pub rank : TimerWait → ℕ
rank t = nanos t.time

to_int-pos : (n : ℕ) → n < 0x8000_0000 → to_int (pos n) ≡ pos n
unfolding to_int
to_int-pos n p = ground arith

to_int-negsuc : (n : ℕ) → n < 0x8000_0000 → to_int (negsuc n) ≡ negsuc n
unfolding to_int
to_int-negsuc n p = ground arith

timer_compare-above :
    (a b : TimerWait)
    → InEpoch a
    → InEpoch b
    → is_positive (timer_compare a b) ≡ ltb (rank b) (rank a)
unfolding timer_compare
timer_compare-above a b p q = ground arith

timer_compare-below :
    (a b : TimerWait)
    → InEpoch a
    → InEpoch b
    → is_negative (timer_compare a b) ≡ ltb (rank a) (rank b)
unfolding timer_compare
timer_compare-below a b p q = ground arith

-- On normal times within 2^31 seconds of 1970 timer_compare orders by time, as the heap needs it.
pub timer_compare-Agrees : Agrees InEpoch rank timer_compare
timer_compare-Agrees = record { above = timer_compare-above; below = timer_compare-below }

-- Of two times that lie 2^31 seconds apart or more, up to 2^32, the later one compares as less.
pub timer_compare-wraps :
    (a b : TimerWait) (d : ℕ)
    → a.time.sec ≡ b.time.sec + 0x8000_0000 + d
    → d < 0x8000_0000
    → is_negative (timer_compare a b) ≡ true
unfolding timer_compare
timer_compare-wraps a b d e p = ground arith
