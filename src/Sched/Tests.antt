-- ===== src/Sched/Tests.antt =====
-- The scheduler in the concrete world of Sched/Examples.
use shproject.Prelude.{ℕ, ◌∉◌, ◌≡◌, ◌≢◌, refl, true, some, List, [], ◌∷◌, arith, inl}
use shproject.Prelude.Outcome.{Returns, abort, pure, ◌>>◌}
use shproject.Heap.{heap_init}
use shproject.Timer.Order.{InEpoch}
use shproject.Sched.Timers.{Timed, sched_wait_lem}
use shproject.Sched.Expire.{Handled, sched_handle_timers_lem}
use shproject.Sched.State.{World, add, del, stays}
use shproject.Sched.Core.{
  sched_prepare_to_suspend, sched_suspend, sched_schedule, sched_resched_with, sched_resched,
  sched_coro_die,
}
use shproject.Sched.Wait.{
  interrupted, ready, platform_poll_poll, event_wait_begin, event_wait_end, dispatch, sched_wait,
  sched_handle_timers, epollet, epolloneshot,
}
use shproject.Sched.Init.{sched_init}
use shproject.Sched.Invariant.{queue, current, IsSound}
use shproject.Sched.Resched.{Yielded, sched_resched_lem}
use shproject.Sched.Suspend.{Stayed}
use shproject.Sched.Schedule.{Scheduled, sched_schedule-asleep}
use shproject.Sched.Wake.{prepare-schedule-suspend-stays}
use shproject.Sched.Boot.{sched_init-IsSound}
use shproject.Sched.Preempt.{signal_at, sched_resched-preempted}
use shproject.Sched.Fair.{yields, yields-turns}
use shproject.Sched.Examples.{
  sleeper, three, three-IsSound, sleeper-IsAsleep, noon, no_timers-IsHeap, one_timer,
  one_timer-IsSound, one_timer-IsHeap,
}
use shproject.Web.Main.{AreServed, Connection, accept_loop, accept_loop-queues}
use shproject.Sched.Answers.{platform_poll_poll_lem}
use shproject.Sched.Die.{Died, sched_coro_die_lem}
use shproject.Sched.Poll.{event_wait-roundtrip}
use Prim.Native.Nat.{bit_or}

event_wait-roundtrip_example :
    Returns
      (λ r g.
        (r ≡ 1)
        × IsSound g
        × (current g ≡ 1)
        × (queue g ≡ 2 ∷ [])
        × (g.lsched.errno ≡ 11)
        × (g.lsched.event_loop_coro ≡ 2)
        × (g.epoll ≡ del 6 ∷ add 6 (bit_or (bit_or 1 epollet) epolloneshot) 91 ∷ []))
      ((event_wait_begin 91 6 1 0
          >> dispatch ((91, 1) ∷ [])
          >> sched_resched
          >> event_wait_end 91 0)
        three)
event_wait-roundtrip_example =
    event_wait-roundtrip three 91 6 1 1 2 three-IsSound refl (λ h. absurd (omega arith)) refl

prepare-schedule-suspend-stays_example :
    Returns
      (λ ctl g. (ctl ≡ stays) × Stayed three 2 [] g)
      ((sched_prepare_to_suspend >> sched_schedule 1 >> sched_suspend) three)
prepare-schedule-suspend-stays_example =
    prepare-schedule-suspend-stays three 2 [] three-IsSound refl

sched_resched_lem_example :
    Returns (λ ctl g. (ctl ≢ stays) × Yielded three 2 [] g) (sched_resched three)
sched_resched_lem_example = sched_resched_lem three 2 [] three-IsSound refl

sched_schedule-asleep_example :
    Returns (λ _. Scheduled three 3 (2 ∷ 3 ∷ [])) (sched_schedule 3 three)
sched_schedule-asleep_example = sched_schedule-asleep three 3 sleeper three-IsSound sleeper-IsAsleep

sched_init-IsSound_example :
    Returns
      (λ _ g. IsSound g × (current g ≡ 1) × (queue g ≡ 2 ∷ []) × (g.local_count ≡ 1))
      (sched_init 4 true 0 0 1 2 77)
sched_init-IsSound_example = sched_init-IsSound 4 1 2 77 refl refl refl

sched_coro_die_lem_example :
    Returns (λ ctl g. (ctl ≢ stays) × Died three 2 [] g) (sched_coro_die three)
sched_coro_die_lem_example =
    sched_coro_die_lem three 2 [] three-IsSound refl (λ h. absurd (omega arith))

sched_wait_lem_example :
    Returns (λ ctl g. (ctl ≢ stays) × Timed three noon 2 [] g) (sched_wait true noon three)
unfolding heap_init
sched_wait_lem_example =
    sched_wait_lem three noon 2 [] three-IsSound refl (λ h. absurd (omega arith)) refl
      (no_timers-IsHeap InEpoch) (record { normal = omega arith; early = omega arith })
      (inl (omega arith))

sched_handle_timers_lem_example :
    Returns (λ _. Handled one_timer noon) (sched_handle_timers ((noon, true) ∷ []) one_timer)
sched_handle_timers_lem_example =
    sched_handle_timers_lem ((noon, true) ∷ []) one_timer noon one_timer-IsSound refl
      one_timer-IsHeap (omega arith, omega arith, tt) (omega arith)

-- The same world with a second processor.
abbrev spare : World
spare = record three { local_size = 2 }

platform_poll_poll_lem_example :
    platform_poll_poll (interrupted ∷ ready ((90, 1) ∷ []) ∷ []) three
    ≡ (dispatch ((90, 1) ∷ []) >> pure true) three
platform_poll_poll_lem_example =
    platform_poll_poll_lem (interrupted ∷ []) [] ((90, 1) ∷ []) three refl refl

sched_resched-preempted_example :
    Returns (λ _ g. current g ≡ 2) (sched_resched three)
    × (sched_resched_with (signal_at 1) three ≡ abort)
    × (sched_resched_with (signal_at 2) three ≡ abort)
sched_resched-preempted_example = sched_resched-preempted three 2 [] three-IsSound refl

-- Two connections that wait.
abbrev connections : List Connection
connections =
    record { new_sock = some 6; fresh = 8; fresh_local = 0 }
    ∷ record { new_sock = some 7; fresh = 9; fresh_local = 0 }
    ∷ []

accept_loop-queues_example :
    (g : World) × (accept_loop 79 connections three ≡ accept_loop 79 [] g)
    × IsSound g
    × (queue g ≡ 2 ∷ 8 ∷ 9 ∷ [])
    × (current g ≡ 1)
    × AreServed 79 g connections
    × ((t : ℕ) → t ∉ (8 ∷ 9 ∷ []) → g.coros t ≡ three.coros t)
accept_loop-queues_example =
    accept_loop-queues 79 connections [] three three-IsSound refl
      ((6, refl), refl, refl, refl, ((7, refl), refl, refl, refl, tt))

yields-turns_example :
    Returns
      (λ cs g.
        (cs ≡ 2 ∷ 1 ∷ [])
        × IsSound g
        × (current g ≡ 1)
        × (queue g ≡ 2 ∷ [])
        × (g.lsched.errno ≡ 11))
      (yields 2 three)
yields-turns_example = yields-turns three three-IsSound
