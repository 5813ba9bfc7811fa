-- ===== src/Sched/Loop.antt =====
-- sched_loop, the event loop of a thread.
mod Tests
use shproject.Prelude.{
  ℕ, ◌≤◌, ◌≡◌, ◌≢◌, refl, Bool, true, false, not, List, [], ◌∷◌, ◌++◌, ◌==◌, inl, inr, Bool-cases,
  ltb, length, if◌then◌else◌, arith,
}
use shproject.Prelude.Int.{ℤ}
use shproject.Prelude.Outcome.{
  Prog, ok, out_of_fuel, pure, and_then, ◌>>◌, ◌>>=◌, assert, Returns, returns, Returns-bind,
  Returns-mono,
}
use shproject.Heap.Order.{IsHeap}
use shproject.Timer.{Timespec, timer_compare, is_zero}
use shproject.Timer.Order.{rank}
use shproject.Sched.State.{
  LocalSched, World, Control, stays, starts, switched_back, resumed, put_local,
}
use shproject.Sched.Core.{sched_resched}
use shproject.Sched.Wait.{Answer, ready, max_events, sched_loop_round}
use shproject.Sched.Invariant.{queue, current, IsSound}
use shproject.Sched.Resched.{sched_resched-nil}
use shproject.Sched.Expire.{IsTimer, AllFrom}
use shproject.Sched.Events.{AreEvents}
use shproject.Sched.Answers.{all_go_on, events_of}
use shproject.Sched.Round.{timeout_lem, poll_lem, handle-Polled}
use shproject.Sched.Turned.{Turned, stay-Turned, resched-Turned, stay-nil}

-- What the kernel answers in one round: the clock for the timeout, the poll, and the clock and
-- realloc for each timer.
pub record Round : Type 0 where
  pub now : Timespec
  pub answers : List Answer
  pub readings : List (Timespec × Bool)

-- The next round comes at once where the loop keeps its thread; otherwise when it runs again.
unfoldable go_on : Prog World Control → Control → Prog World Control
go_on again stays = again
go_on again (starts start arg) = pure (starts start arg)
go_on again (switched_back coro) = pure (switched_back coro)
go_on again (resumed coro) = pure (resumed coro)

-- The `for` of sched_loop, up to where another coroutine runs.
unfoldable loop_rounds : List Round → Prog World Control
unfolding sched_loop_round go_on
loop_rounds [] = λ _. out_of_fuel
loop_rounds (r ∷ rounds) =
    sched_loop_round r.now r.answers r.readings >>= go_on (loop_rounds rounds)

-- `initialised` is `platform_sched_initialised`, and `preempt` what platform_sched_init returns.
unfoldable pub sched_loop : LocalSched → Bool → ℕ → List Round → Prog World Control
unfolding loop_rounds
sched_loop sched initialised preempt rounds = do
  put_local sched
  if not initialised then assert (preempt == 0) else pure tt
  loop_rounds rounds

-- From a sound state, with timers whose times can be compared and whose coroutines can be awakened, as
-- many readings of the clock as timers, none before `start`, and events of waits whose coroutines can be
-- awakened, a round of the event loop returns. No timer that was due at `start` is left. A
-- coroutine whose event came, or that has lost a timer, is runnable; if it was asleep, it is in the queue
-- or runs. The state stays sound; when a coroutine was queued, the first of the queue runs after the
-- round, and the caller is the last of the queue.
pub sched_loop_round_lem :
    (now start : Timespec) (before after : List Answer) (last : List (ℕ × ℕ))
    (readings : List (Timespec × Bool)) (w : World)
    → IsSound w
    → w.timer_heap.compare ≡ timer_compare
    → IsHeap (IsTimer w) rank w.timer_heap
    → all_go_on before ≡ true
    → ltb (length last) max_events ≡ true
    → AreEvents w (events_of before ++ last)
    → AllFrom start readings
    → w.timer_heap.items ≤ length readings
    → Returns
        (Turned w start (events_of before ++ last))
        (sched_loop_round now (before ++ ready last ∷ after) readings w)
unfolding sched_loop_round
sched_loop_round_lem now start before after last readings w s cmp heap go short all from enough =
    Returns-bind (timeout_lem now w heap) λ z w' (same, zero_if). rw same (
      Returns-bind (poll_lem before after last w s go short all) λ r b (is, p). rw is (
        Returns-bind
          (handle-Polled w b start (events_of before ++ last) readings cmp heap from enough p)
          λ _ g q. elim (Bool-cases (is_zero z)) [
            | inl ends ↦ rw ends (resched-Turned w g start (events_of before ++ last) q)
            | inr blocks ↦ rw blocks (
                returns (
                  stay-Turned w g start (events_of before ++ last)
                    (stay-nil (queue w) z zero_if blocks) q))
          ]))

-- What sched_loop does before its first round.
abbrev entered : World → LocalSched → World
entered w sched = record w { lsched = sched }

go_on-leaves :
    (again : Prog World Control) (ctl : Control) → ctl ≢ stays → go_on again ctl ≡ pure ctl
unfolding go_on
go_on-leaves again stays moved = absurd (moved refl)
go_on-leaves again (starts start arg) moved = refl
go_on-leaves again (switched_back coro) moved = refl
go_on-leaves again (resumed coro) moved = refl

loop_run :
    (sched : LocalSched) (initialised : Bool) (rounds : List Round) (w : World)
    → sched_loop sched initialised 0 rounds w ≡ loop_rounds rounds (entered w sched)
unfolding sched_loop
loop_run sched true rounds w = refl
loop_run sched false rounds w = refl

-- A thread that enters sched_loop with a coroutine in its queue makes the scheduler its own, and runs
-- the first of the queue after one round, whether or not its timer was set up before; under the same
-- conditions on the timers and the events as a round, and if the timer can be set up.
pub sched_loop-first :
    (sched : LocalSched) (initialised : Bool) (rounds : List Round) (now start : Timespec)
    (before after : List Answer) (last : List (ℕ × ℕ)) (readings : List (Timespec × Bool))
    (w : World) (c : ℕ) (rest : List ℕ)
    → IsSound (entered w sched)
    → sched.run_list ≡ c ∷ rest
    → w.timer_heap.compare ≡ timer_compare
    → IsHeap (IsTimer (entered w sched)) rank w.timer_heap
    → all_go_on before ≡ true
    → ltb (length last) max_events ≡ true
    → AreEvents (entered w sched) (events_of before ++ last)
    → AllFrom start readings
    → w.timer_heap.items ≤ length readings
    → Returns
        (λ ctl g. (current g ≡ c) × Turned (entered w sched) start (events_of before ++ last) ctl g)
        (sched_loop sched initialised 0
          (record { now = now; answers = before ++ ready last ∷ after; readings = readings }
            ∷ rounds)
          w)
unfolding loop_rounds
sched_loop-first sched initialised rounds now start before after last readings w c rest s q cmp heap
      go short all from enough =
    rw
      (loop_run sched initialised
        (record { now = now; answers = before ++ ready last ∷ after; readings = readings } ∷ rounds)
        w)
      (Returns-bind
        (sched_loop_round_lem now start before after last readings (entered w sched) s cmp heap go
          short all from enough)
        (λ ctl g t.
          let (moved, next, more) = t.turn c rest q in
          rw (go_on-leaves (loop_rounds rounds) ctl moved) (returns (next, t))))
