-- ===== src/Sched/Threads/Tests.antt =====
-- Two threads, from sched_init on: a wake-up comes between the two halves of a suspension.
use shproject.Prelude.{ℕ, ◌≡◌, some, ◌<◌, refl, inl, inr, arith}
use shproject.Sched.Core.{
  sched_prepare_to_suspend, suspend_begin, suspend_commit, sched_schedule, sched_resched,
}
use shproject.Sched.Init.{sched_new_coroutine}
use shproject.Sched.Boot.{booted}
use shproject.Sched.Threads.{
  Machine, announce, begin, commit, wake, spawn, yield, Reach, here, next,
}
use shproject.Sched.Threads.Places.{IsConsistent}
use shproject.Sched.Threads.Lost.{IsOn, CanGoOn, Reach-exclusive, Reach-CanGoOn}
use shproject.Sched.State.{runnable, Coroutine}
use shproject.Sched.Threads.Woken.{Meanwhile, still, step, Reach-woken}
use shproject.Sched.Threads.Start.{alone, booted-IsConsistent}

abbrev start : Machine
start = alone (booted 2 1 2 77)

start-IsConsistent : IsConsistent 2 start
start-IsConsistent = booted-IsConsistent 2 1 2 77 refl refl refl

-- The main thread starts another one, announces its suspension and begins it; the other thread runs
-- its coroutine.
unfoldable parting : (m : Machine) × Reach 2 start m
unfolding sched_new_coroutine sched_resched sched_prepare_to_suspend suspend_begin
parting = (
  _,
  next
      (next
        (next (next here (spawn 0 3 4 79 5 (omega arith) refl refl refl refl refl refl refl refl))
          (announce 0 (omega arith) refl refl))
        (begin 0 (omega arith) refl (λ h. absurd (omega arith)) (λ h. absurd (omega arith)) refl))
      (yield 1 (omega arith) refl refl),
)

-- That coroutine wakes the main one.
unfoldable raced : (m : Machine) × Reach 2 start m
unfolding parting sched_schedule
raced = (_, next parting.1 (wake 1 1 (omega arith) refl (λ h. absurd (omega arith)) refl refl))

-- The main thread finishes the suspension.
unfoldable stayed : (m : Machine) × Meanwhile 2 1 raced.0 m
unfolding raced suspend_commit
stayed = (_, step still (commit 0 1 (omega arith) refl refl) refl)

Reach-woken_example :
    (x : Coroutine) × (stayed.0.shared.coros 1 ≡ some x)
    × (x.state ≡ runnable)
    × (j : ℕ) × (j < stayed.0.threads)
    × IsOn stayed.0 j 1
unfolding stayed
Reach-woken_example =
    Reach-woken 2 start parting.0 stayed.0 1 1 raced.0.shared start-IsConsistent parting.1
      (omega arith) refl (λ h. absurd (omega arith)) refl refl stayed.1

Reach-exclusive_example : ¬ IsOn raced.0 0 3
unfolding raced
Reach-exclusive_example =
    Reach-exclusive 2 start raced.0 3 1 0 start-IsConsistent raced.1 (omega arith) (omega arith)
      (λ h. absurd (omega arith)) (inr (inl refl))

Reach-CanGoOn_example : CanGoOn 2 raced.0 1
unfolding raced
Reach-CanGoOn_example = Reach-CanGoOn 2 start raced.0 1 start-IsConsistent raced.1 (omega arith)
