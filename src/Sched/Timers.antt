-- ===== src/Sched/Timers.antt =====
-- Waiting for a time: sched_wait and sched_handle_timers over the heap of the timers.
use shproject.Prelude.{ℕ, ◌≡◌, ◌≢◌, true, false, some, List, ◌∷◌, arith}
use shproject.Prelude.Outcome.{ok, ◌>>◌, Returns, Returns-mono, Returns-inv}
use shproject.Heap.{Heap, heap_push}
use shproject.Heap.Order.{IsHeap}
use shproject.Heap.Push.{HasRoom, Pushed, heap_push_lem}
use shproject.Timer.{Timespec, TimerWait, timer_compare}
use shproject.Timer.Order.{InEpoch, rank, timer_compare-Agrees}
use shproject.Sched.State.{blocked, Coroutine, World, stays}
use shproject.Sched.Core.{sched_prepare_to_suspend, sched_suspend}
use shproject.Sched.Wait.{sched_wait}
use shproject.Sched.Invariant.{queue, current, IsSound}
use shproject.Sched.Wake.{prepare-suspend-sleeps}

-- A world whose timers differ.
abbrev pub timed : World → Heap TimerWait → World
timed w h = record w { timer_heap = h }

pub timed-IsSound : (w : World) (h : Heap TimerWait) → IsSound w → IsSound (timed w h)
timed-IsSound w h s = record {
  lock = s.lock;
  distinct = s.distinct;
  nonnull = s.nonnull;
  ready = s.ready;
  running = s.running;
  looping = s.looping;
}

abbrev timer : World → Timespec → TimerWait
timer w time = record { time = time; coro = current w }

-- The push comes between the announcement and the suspension, and touches neither.
wait_run :
    (w : World) (time : Timespec) (h : Heap TimerWait) (x : Coroutine)
    → w.coros (current w) ≡ some x
    → heap_push true (timer w time) w.timer_heap ≡ ok 0 h
    → sched_wait true time w ≡ (sched_prepare_to_suspend >> sched_suspend) (timed w h)
unfolding sched_wait sched_prepare_to_suspend
wait_run w time h x e run = ground arith

-- What sched_wait promises: the caller sleeps, its timer is in the heap, and the first of the queue
-- runs.
pub record Timed (w : World) (time : Timespec) (c : ℕ) (rest : List ℕ) (g : World) : Type 0 where
  pub pushed : Pushed InEpoch rank w.timer_heap (timer w time) g.timer_heap
  pub sound : IsSound g
  pub next : current g ≡ c
  pub order : queue g ≡ rest
  pub sleeper :
      (x : Coroutine) × (g.coros (current w) ≡ some x) × (x.state ≡ blocked) × (x.linked ≡ false)

-- From a sound state with a coroutine queued, the event loop not running, and a heap of timers with
-- room, sched_wait adds the caller's timer to the heap, puts the caller to sleep, and runs the first
-- of the queue.
pub sched_wait_lem :
    (w : World) (time : Timespec) (c : ℕ) (rest : List ℕ)
    → IsSound w
    → queue w ≡ c ∷ rest
    → w.lsched.event_loop_coro ≢ current w
    → w.timer_heap.compare ≡ timer_compare
    → IsHeap InEpoch rank w.timer_heap
    → InEpoch (timer w time)
    → HasRoom w.timer_heap
    → Returns (λ ctl g. (ctl ≢ stays) × Timed w time c rest g) (sched_wait true time w)
sched_wait_lem w time c rest s q off cmp heap fit room =
    let (x, ea, free, up) = s.running in
    let (r, h, run, both) =
      Returns-inv
        (heap_push_lem w.timer_heap (timer w time) (rw cmp timer_compare-Agrees) heap fit room) in
    rw (wait_run w time h x ea (rw both.0 at run)) (
      Returns-mono (prepare-suspend-sleeps (timed w h) c rest (timed-IsSound w h s) q off)
        λ _ g (left, p).
          let (y, found, state, free', _, _) = p.sleeper in
          (
            left,
            record {
              pushed = rw p.timers both.1;
              sound = p.sound;
              next = p.next;
              order = p.order;
              sleeper = (y, found, state, free');
            },
          ))
