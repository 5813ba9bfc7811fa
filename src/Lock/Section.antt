-- ===== src/Lock/Section.antt =====
-- The sections of scheduler.c under a mutex.
use shproject.Prelude.{ℕ, Bool, ◌==◌, if◌then◌else◌}
use shproject.Prelude.Outcome.{
  Outcome, Prog, ok, fault, abort, out_of_fuel, pure, ◌>>=◌, ◌>>◌, assert,
}
use shproject.Heap.{heap_push}
use shproject.Timer.{Timespec}
use shproject.Lock.{Pthread, mutex_lock, mutex_unlock}
use shproject.Sched.State.{World, Control, stays, get_local}
use shproject.Sched.Core.{sched_prepare_to_suspend, sched_suspend, sched_resched_callback}
use shproject.Sched.Wait.{on_timers}

-- What a thread sees, and the mutex of the `struct global_sched`. That of its own scheduler is for
-- SCHED_WORK_STEALING.
pub record Locked (M : Type 0) : Type 0 where
  pub world : World
  pub global : M

abbrev pub put_world : {M A : Type 0} → Locked M → Outcome World A → Outcome (Locked M) A
put_world s (ok a x) = ok a (record s { world = x })
put_world s fault = fault
put_world s abort = abort
put_world s out_of_fuel = out_of_fuel

abbrev pub on_world : {M A : Type 0} → Prog World A → Prog (Locked M) A
on_world call s = put_world s (call s.world)

abbrev pub put_global : {M A : Type 0} → Locked M → Outcome M A → Outcome (Locked M) A
put_global s (ok a x) = ok a (record s { global = x })
put_global s fault = fault
put_global s abort = abort
put_global s out_of_fuel = out_of_fuel

abbrev pub on_global : {M A : Type 0} → Prog M A → Prog (Locked M) A
on_global call s = put_global s (call s.global)

module _ {M : Type 0} (p : Pthread M) where
  unfoldable pub glock : Prog (Locked M) (Unit {0})
  unfolding mutex_lock
  glock = on_global (mutex_lock p)

  unfoldable pub gunlock : Prog (Locked M) (Unit {0})
  unfolding mutex_unlock
  gunlock = on_global (mutex_unlock p)

  -- `at k` is what a signal handler does that runs after the k-th call, and what runs on the thread
  -- from then on.
  unfoldable pub sched_wait_with :
      (ℕ → Prog (Locked M) (Unit {0})) → Bool → Timespec → Prog (Locked M) Control
  unfolding glock gunlock
  sched_wait_with at granted time = do
    l ← on_world get_local
    on_world sched_prepare_to_suspend
    at 1
    glock
    at 2
    result ←
        on_world (on_timers (heap_push granted (record { time = time; coro = l.current_coro })))
    at 3
    gunlock
    at 4
    on_world (assert (result == 0))
    on_world sched_suspend

  unfoldable pub sched_wait_locked : Bool → Timespec → Prog (Locked M) Control
  unfolding sched_wait_with
  sched_wait_locked = sched_wait_with (λ k. pure tt)

  -- Whether the signal of the timer lets another coroutine run, which then does `other`.
  abbrev pub elsewhere : Prog (Locked M) (Unit {0}) → Control → Prog (Locked M) (Unit {0})
  elsewhere other stays = pure tt
  elsewhere other ctl = other

  unfoldable pub interrupt : Prog (Locked M) (Unit {0}) → Prog (Locked M) (Unit {0})
  unfolding sched_resched_callback
  interrupt other = do ctl ← on_world sched_resched_callback; elsewhere other ctl

  -- The signal comes once, after the k-th call.
  abbrev pub interrupt_at : ℕ → Prog (Locked M) (Unit {0}) → ℕ → Prog (Locked M) (Unit {0})
  interrupt_at k other n = if n == k then interrupt other else pure tt
