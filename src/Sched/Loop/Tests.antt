-- ===== src/Sched/Loop/Tests.antt =====
-- The event loop in the concrete world of Sched/Examples, with one timer and one event.
use shproject.Prelude.{◌≡◌, refl, true, false, [], ◌∷◌, arith, inl, inr}
use shproject.Prelude.Outcome.{Returns}
use shproject.Sched.Wait.{interrupted, ready}
use shproject.Sched.Invariant.{current}
use shproject.Sched.Schedule.{IsAsleep}
use shproject.Sched.Examples.{
  sleeper, waiting, noon, one_timer, one_timer-IsSound, one_timer-IsHeap,
}
use shproject.Sched.Turned.{Turned}
use shproject.Sched.Loop.{sched_loop, sched_loop_round_lem, sched_loop-first}
use shproject.Sched.Wait.{sched_loop_round}
use shproject.Sched.Events.{AreEvents}

events_come : AreEvents one_timer ((90, 1) ∷ [])
events_come = ((waiting, refl, inr (3, refl, (sleeper, inl sleeper-asleep))), tt)
  where
    sleeper-asleep : IsAsleep one_timer 3 sleeper
    sleeper-asleep = record {
      found = refl;
      state = refl;
      free = refl;
      saved = λ h. absurd cc;
      nonnull = refl;
      idle = refl;
    }

sched_loop_round_lem_example :
    Returns (Turned one_timer noon ((90, 1) ∷ [])) (
      sched_loop_round noon (interrupted ∷ ready ((90, 1) ∷ []) ∷ []) ((noon, true) ∷ []) one_timer)
sched_loop_round_lem_example =
    sched_loop_round_lem noon noon (interrupted ∷ []) [] ((90, 1) ∷ []) ((noon, true) ∷ [])
      one_timer one_timer-IsSound refl one_timer-IsHeap refl refl events_come
      (omega arith, omega arith, tt) (omega arith)

sched_loop-first_example :
    Returns
      (λ ctl g. (current g ≡ 2) × Turned one_timer noon ((90, 1) ∷ []) ctl g)
      (sched_loop one_timer.lsched false 0
        (record {
          now = noon;
          answers = interrupted ∷ ready ((90, 1) ∷ []) ∷ [];
          readings = (noon, true) ∷ [];
        }
          ∷ [])
        one_timer)
sched_loop-first_example =
    sched_loop-first one_timer.lsched false [] noon noon (interrupted ∷ []) [] ((90, 1) ∷ [])
      ((noon, true) ∷ []) one_timer 2 [] one_timer-IsSound refl refl one_timer-IsHeap refl refl
      events_come (omega arith, omega arith, tt) (omega arith)
