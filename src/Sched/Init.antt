-- ===== src/Sched/Init.antt =====
-- Creating coroutines, local schedulers and the process's scheduler. Addresses that malloc returns
-- are arguments, 0 for NULL; so is the number of processors.
use shproject.Prelude.{ℕ, ◌+◌, Bool, false, not, none, some, [], leb, ◌==◌, if◌then◌else◌}
use shproject.Prelude.Outcome.{Outcome, Prog, ok, pure, and_then, ◌>>=◌, ◌>>◌, assert}
use shproject.Heap.{update, heap_init}
use shproject.Timer.{timer_compare}
use shproject.Sched.State.{
  runnable, blocked, unset, nothing, at_start, Coroutine, LocalSched, World, get_local, put_local,
  get_coro, put_coro, enqueue_on, sched_enqueue_locked,
}
use shproject.Sched.Core.{sched_schedule}

abbrev pub new_coroutine : ℕ → ℕ → Coroutine
new_coroutine start arg = record {
  state = blocked;
  context = at_start;
  linked = false;
  private_errno = 0;
  start = start;
  arg = arg;
}

unfoldable pub sched_make_coro : ℕ → ℕ → ℕ → Prog World ℕ
sched_make_coro fresh start arg = do
  assert (not (fresh == 0))
  put_coro fresh (new_coroutine start arg)
  pure fresh

abbrev put_slot : ℕ → LocalSched → Prog World (Unit {0})
put_slot slot local w =
    ok tt (record w { local_schedulers = update w.local_schedulers slot (some local) })

-- The coroutine of the thread itself: no field but `context` and `list` is written.
abbrev pub thread_coroutine : Coroutine
thread_coroutine = record {
  state = unset;
  context = nothing;
  linked = false;
  private_errno = 0;
  start = 0;
  arg = 0;
}

unfoldable pub sched_new_local : ℕ → Prog World LocalSched
sched_new_local fresh = do
  assert (not (fresh == 0))
  put_coro fresh thread_coroutine
  pure (record {
    run_list = [];
    current_coro = fresh;
    event_loop_coro = 0;
    preempt_lock = false;
    errno = 0;
  })

-- The new thread runs sched_loop on its own stack.
unfoldable pub sched_local_start_thread : LocalSched → LocalSched
sched_local_start_thread local = record local { event_loop_coro = local.current_coro }

-- `slot` is what the atomic increment returned: other threads may have come between. The scheduler
-- is in its slot before the coroutine is queued, but the thread starts after that.
unfoldable pub claim_slot : ℕ → ℕ → ℕ → Prog World ℕ
unfolding sched_schedule sched_new_local sched_local_start_thread enqueue_on get_coro
claim_slot coro fresh slot w =
    if leb w.local_size slot
    then (sched_schedule coro >> pure coro) w
    else (do
      local ← sched_new_local fresh
      x ← get_coro coro
      put_coro coro (record x { state = runnable })
      local' ← enqueue_on local coro
      put_slot slot (sched_local_start_thread local')
      pure coro)
        w

unfoldable pub sched_new_coroutine : ℕ → ℕ → ℕ → ℕ → Prog World ℕ
unfolding sched_make_coro claim_slot
sched_new_coroutine fresh fresh_local start arg = do
  coro ← sched_make_coro fresh start arg
  λ w.
      if leb w.local_size w.local_count
      then (sched_schedule coro >> pure coro) w
      else claim_slot coro fresh_local w.local_count (record w { local_count = w.local_count + 1 })

abbrev pub no_local : LocalSched
no_local = record {
  run_list = [];
  current_coro = 0;
  event_loop_coro = 0;
  preempt_lock = false;
  errno = 0;
}

-- sched_new_global, on `thread_count` processors; `poller` is what platform_poll_init returns.
unfoldable pub sched_new_global : ℕ → Bool → ℕ → Outcome World (Unit {0})
sched_new_global thread_count granted poller =
    let (heap, code) = heap_init granted timer_compare in
    (assert (code == 0) >> assert (poller == 0)) (record {
      coros = λ _. none;
      lsched = no_local;
      local_schedulers = λ _. none;
      waits = λ _. none;
      timer_heap = heap;
      local_size = thread_count;
      local_count = 0;
      epoll = [];
    })

-- The first call of sched_init, on the main thread; `loop` is the address of sched_loop, and `preempt`
-- what platform_sched_init returns.
unfoldable pub sched_init : ℕ → Bool → ℕ → ℕ → ℕ → ℕ → ℕ → Outcome World (Unit {0})
unfolding sched_new_global sched_new_local sched_make_coro sched_enqueue_locked
sched_init cpu_count granted poller preempt main_coro loop_coro loop =
    and_then (sched_new_global cpu_count granted poller) (λ _. do
      local ← sched_new_local main_coro
      put_slot 0 local
      put_local local
      λ w. ok tt (record w { local_count = w.local_count + 1 })
      coro ← sched_make_coro loop_coro loop 0
      l ← get_local
      put_local (record l { event_loop_coro = coro })
      sched_enqueue_locked coro
      assert (preempt == 0))
