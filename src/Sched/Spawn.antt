-- ===== src/Sched/Spawn.antt =====
-- sched_new_coroutine where a processor has no thread yet: the coroutine gets a thread of its own.
use shproject.Prelude.{ℕ, ◌+◌, ◌≡◌, true, false, some, [], ◌∷◌, arith, ◌==◌, leb}
use shproject.Prelude.Outcome.{ok}
use shproject.Heap.{update}
use shproject.Sched.State.{runnable, Coroutine, LocalSched, World}
use shproject.Sched.Init.{new_coroutine, thread_coroutine, no_local, sched_new_coroutine}

-- The scheduler of the new thread, and the world with it.
abbrev pub started : ℕ → ℕ → LocalSched
started fresh thread = record no_local {
  run_list = fresh ∷ [];
  current_coro = thread;
  event_loop_coro = thread;
}

abbrev pub queued : ℕ → ℕ → Coroutine
queued start arg = record (new_coroutine start arg) { state = runnable; linked = true }

abbrev pub spawned : World → ℕ → ℕ → ℕ → ℕ → World
spawned w fresh thread start arg = record w {
  coros =
      update
        (update
          (update (update w.coros fresh (some (new_coroutine start arg))) thread
            (some thread_coroutine))
          fresh (some (record (new_coroutine start arg) { state = runnable })))
        fresh (some (queued start arg));
  local_count = w.local_count + 1;
  local_schedulers = update w.local_schedulers w.local_count (some (started fresh thread));
}

pub spawn_run :
    (w : World) (fresh thread start arg : ℕ)
    → leb w.local_size w.local_count ≡ false
    → (fresh == 0) ≡ false
    → (thread == 0) ≡ false
    → (thread == fresh) ≡ false
    → sched_new_coroutine fresh thread start arg w ≡ ok fresh (spawned w fresh thread start arg)
unfolding sched_new_coroutine
spawn_run w fresh thread start arg room nz nz' apart = ground arith
