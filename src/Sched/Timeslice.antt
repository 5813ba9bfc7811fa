-- ===== src/Sched/Timeslice.antt =====
-- platform/sched_linux.c: the timer whose signal preempts a thread.
-- What the kernel answers is an argument: whether sigaction, timer_create and timer_settime, and
-- sched_getaffinity succeed, and the thread and the processors it names.
use shproject.Prelude.{
  ℕ, ◌*◌, ◌≡◌, refl, Bool, true, false, not, List, [], ◌∷◌, arith, if◌then◌else◌,
}
use shproject.Prelude.Outcome.{Prog, ok, pure, and_then, ◌>>◌, assert}
use shproject.Sched.State.{World, Control}
use shproject.Sched.Core.{sched_resched_callback}

-- The time of a slice, in nanoseconds: first, and from then on.
pub record Slice : Type 0 where
  pub interval : ℕ
  pub value : ℕ

abbrev pub timeslice_millis : ℕ
timeslice_millis = 200

abbrev pub timeslice : Slice
timeslice = record { interval = timeslice_millis * 1_000_000; value = timeslice_millis * 1_000_000 }

pub data Sys : Type 0 where
  sigaction : Sys
  timer_create : (thread : ℕ) → Sys
  timer_settime : Slice → Sys

-- The static variable, and the calls that were made, latest first.
pub record Platform : Type 0 where
  pub setup_signal_handler : Bool
  pub calls : List Sys

unfoldable pub resched_handler : Prog World Control
unfolding sched_resched_callback
resched_handler = sched_resched_callback

abbrev issue : Sys → Bool → Prog Platform (Unit {0})
issue sys granted s = and_then (ok tt (record s { calls = sys ∷ s.calls })) (λ _. assert granted)

-- The handler of the signal, once.
unfoldable pub setup_handler : Bool → Prog Platform (Unit {0})
setup_handler granted s =
    if not s.setup_signal_handler
    then issue sigaction granted (record s { setup_signal_handler = true })
    else ok tt s

unfoldable pub platform_sched_init : Bool → Bool → Bool → ℕ → Prog Platform ℕ
unfolding setup_handler
platform_sched_init acts creates sets thread = do
  setup_handler acts
  issue (timer_create thread) creates
  issue (timer_settime timeslice) sets
  pure 0

-- CPU_COUNT of the mask that sched_getaffinity gives.
unfoldable pub platform_sched_cpu_count : Bool → ℕ → Prog Platform ℕ
platform_sched_cpu_count granted count = do assert granted; pure count

-- One call for each thread.
unfoldable pub init_all : List ℕ → Prog Platform (Unit {0})
unfolding platform_sched_init
init_all [] = pure tt
init_all (thread ∷ threads) = do platform_sched_init true true true thread; init_all threads

abbrev pub timers : List ℕ → List Sys → List Sys
timers [] calls = calls
timers (thread ∷ threads) calls =
    timers threads (timer_settime timeslice ∷ timer_create thread ∷ calls)

later_lem :
    (threads : List ℕ) (s : Platform)
    → s.setup_signal_handler ≡ true
    → init_all threads s ≡ ok tt (record s { calls = timers threads s.calls })
unfolding init_all
later_lem [] s e = refl
later_lem (thread ∷ threads) s e =
    let rest =
      later_lem threads
        (record s { calls = timer_settime timeslice ∷ timer_create thread ∷ s.calls }) e in
    ground arith

-- However many threads start, each gets one timer, of the same slice again and again, and the
-- handler of the signal is installed once, by the first.
pub init_all_lem :
    (thread : ℕ) (threads : List ℕ)
    → init_all (thread ∷ threads) (record { setup_signal_handler = false; calls = [] })
      ≡ ok tt (record {
        setup_signal_handler = true;
        calls = timers (thread ∷ threads) (sigaction ∷ []);
      })
unfolding init_all
init_all_lem thread threads =
    later_lem threads
      (record {
        setup_signal_handler = true;
        calls = timer_settime timeslice ∷ timer_create thread ∷ sigaction ∷ [];
      })
      refl
