-- ===== src/Sched/Boot.antt =====
-- sched_init and sched_new_coroutine: the first world of the process, and a new coroutine on it.
use shproject.Prelude.{ℕ, ◌≡◌, refl, true, false, none, some, [], ◌∷◌, ◌++◌, arith, ◌==◌, leb}
use shproject.Prelude.Outcome.{ok, Returns, returns, Returns-bind}
use shproject.Heap.{update, heap_init}
use shproject.Timer.{timer_compare}
use shproject.Sched.State.{World}
use shproject.Sched.Init.{
  new_coroutine, thread_coroutine, no_local, sched_init, sched_new_coroutine,
}
use shproject.Sched.Invariant.{queue, current, IsSound}
use shproject.Sched.Schedule.{IsAsleep, Scheduled, sched_schedule-asleep}

-- The world that sched_init leaves, on `cpus` processors.
abbrev pub booted : ℕ → ℕ → ℕ → ℕ → World
booted cpus main loop f = record {
  coros =
      update
        (update (update (λ _. none) main (some thread_coroutine)) loop (some (new_coroutine f 0)))
        loop (some (record (new_coroutine f 0) { linked = true }));
  lsched = record no_local { run_list = loop ∷ []; current_coro = main; event_loop_coro = loop };
  local_schedulers = update (λ _. none) 0 (some (record no_local { current_coro = main }));
  waits = λ _. none;
  timer_heap = (heap_init true timer_compare).0;
  local_size = cpus;
  local_count = 1;
  epoll = [];
}

pub init_run :
    (cpus main loop f : ℕ)
    → (main == 0) ≡ false
    → (loop == 0) ≡ false
    → (main == loop) ≡ false
    → sched_init cpus true 0 0 main loop f ≡ ok tt (booted cpus main loop f)
unfolding sched_init heap_init
init_run cpus main loop f m l d = ground arith

-- sched_init succeeds with the memory, the poller and the preemption timer that it asks for, and
-- two distinct addresses, none NULL, for the two coroutines: the main thread's coroutine runs, the event loop is queued
-- alone, and the invariant of the scheduler holds.
pub sched_init-IsSound :
    (cpus main loop f : ℕ)
    → (main == 0) ≡ false
    → (loop == 0) ≡ false
    → (main == loop) ≡ false
    → Returns
        (λ _ g. IsSound g × (current g ≡ main) × (queue g ≡ loop ∷ []) × (g.local_count ≡ 1))
        (sched_init cpus true 0 0 main loop f)
sched_init-IsSound cpus main loop f m l d = rw (init_run cpus main loop f m l d) (
    returns (
      record {
        lock = refl;
        distinct = ground arith;
        nonnull = ground arith;
        ready = λ t i. (
          record (new_coroutine f 0) { linked = true },
          ground arith,
          refl,
          λ h. ground arith,
          λ h. absurd cc,
        );
        running = (thread_coroutine, ground arith, refl, λ h. absurd cc);
        looping = ground arith;
      },
      refl,
      refl,
      refl,
    ))

-- The world with a coroutine made at `fresh`.
abbrev pub made : World → ℕ → ℕ → ℕ → World
made w fresh start arg = record w { coros = update w.coros fresh (some (new_coroutine start arg)) }

made-IsSound :
    (w : World) (fresh start arg : ℕ)
    → IsSound w
    → w.coros fresh ≡ none
    → IsSound (made w fresh start arg)
made-IsSound w fresh start arg s e = record {
  lock = s.lock;
  distinct = s.distinct;
  nonnull = s.nonnull;
  ready = λ t i.
      let (y, found, linked, up, saved) = s.ready t i in (y, ground arith, linked, up, saved);
  running = let (y, found, free, up) = s.running in (y, ground arith, free, up);
  looping = s.looping;
}

-- Once every processor has its thread, sched_new_coroutine puts a coroutine for `start arg` at the
-- end of the caller's queue, leaves the other coroutines alone, and returns its address.
pub sched_new_coroutine-queued :
    (w : World) (fresh local start arg : ℕ)
    → IsSound w
    → leb w.local_size w.local_count ≡ true
    → w.coros fresh ≡ none
    → (fresh == 0) ≡ false
    → Returns
        (λ r g. (r ≡ fresh) × Scheduled (made w fresh start arg) fresh (queue w ++ fresh ∷ []) g)
        (sched_new_coroutine fresh local start arg w)
unfolding sched_new_coroutine
sched_new_coroutine-queued w fresh local start arg s full e nz =
    let z : IsAsleep (made w fresh start arg) fresh (new_coroutine start arg) = record {
      found = ground arith;
      state = refl;
      free = refl;
      saved = λ h. absurd cc;
      nonnull = nz;
      idle = let (y, found, free, up) = s.running in ground arith;
    } in
    rw (nz, full)
      (Returns-bind
        (sched_schedule-asleep (made w fresh start arg) fresh (new_coroutine start arg)
          (made-IsSound w fresh start arg s e) z)
        λ _ g p. returns (refl, p))
