-- ===== src/Sched/Core.antt =====
-- Switching between coroutines: sched_resched, sched_suspend, sched_schedule and the end of a
-- coroutine. sched_init returns at once on a thread that has its local scheduler, as every thread
-- here has. A function returns where the thread's control goes.
use shproject.Prelude.{ℕ, Bool, true, false, not, none, List, [], ◌∷◌, ◌==◌, if◌then◌else◌}
use shproject.Prelude.Outcome.{Prog, ok, fault, pure, ◌>>=◌, ◌>>◌, assert}
use shproject.Heap.{update}
use shproject.Sched.State.{
  State, runnable, blocking, blocked, Saved, nothing, at_start, at_switch, at_suspend, World,
  Control, stays, starts, switched_back, resumed, get_local, put_local, get_coro, put_coro,
  sched_block_preempt, sched_unblock_preempt, sched_can_preempt, sched_get_current,
  sched_dequeue_locked, sched_enqueue_locked,
}

abbrev pub is_nil : List ℕ → Bool
is_nil [] = true
is_nil (x ∷ xs) = false

abbrev pub is_blocking : State → Bool
is_blocking blocking = true
is_blocking _ = false

abbrev pub is_blocked : State → Bool
is_blocked blocked = true
is_blocked _ = false

-- Up to the call of the start function.
unfoldable pub coro_trampoline : Prog World Control
unfolding sched_unblock_preempt get_coro
coro_trampoline = do
  l ← get_local
  x ← get_coro l.current_coro
  sched_unblock_preempt
  pure (starts x.start x.arg)

-- What runs behind the point that the context was saved at.
unfoldable pub continue_at : ℕ → Saved → Prog World Control
unfolding coro_trampoline sched_unblock_preempt
continue_at c nothing = λ _. fault
continue_at c at_start = coro_trampoline
continue_at c at_switch = do sched_unblock_preempt; pure (switched_back c)
continue_at c at_suspend = do sched_unblock_preempt; pure (resumed c)

-- context_restore, and what the restored coroutine does before it is back in its own code.
unfoldable pub context_restore : ℕ → Prog World Control
unfolding continue_at get_coro
context_restore c = do x ← get_coro c; continue_at c x.context

-- The current state is saved in `from`; what runs when it is restored is in `continue_at`.
unfoldable pub context_switch : ℕ → ℕ → Prog World Control
unfolding context_restore get_coro
context_switch from to = do
  saved ← get_coro from
  put_coro from (record saved { context = at_switch })
  context_restore to

-- The unblocking behind the switch is in `continue_at`.
unfoldable pub sched_switch_context : ℕ → Prog World Control
unfolding context_switch sched_block_preempt get_coro
sched_switch_context coro = do
  sched_block_preempt
  l ← get_local
  assert (not (l.current_coro == 0))
  previous ← get_coro l.current_coro
  put_coro l.current_coro (record previous { private_errno = l.errno })
  x ← get_coro coro
  put_local (record l { current_coro = coro; errno = x.private_errno })
  context_switch l.current_coro coro

-- `at k` is what a signal handler does that runs after the k-th call of the function.
unfoldable pub sched_resched_with : (ℕ → Prog World (Unit {0})) → Prog World Control
unfolding sched_switch_context sched_enqueue_locked sched_dequeue_locked
sched_resched_with at = do
  l ← get_local
  if is_nil l.run_list then pure stays else (do
    sched_enqueue_locked l.current_coro
    at 1
    coro ← sched_dequeue_locked
    at 2
    sched_switch_context coro)

unfoldable pub sched_resched : Prog World Control
unfolding sched_resched_with
sched_resched = sched_resched_with (λ k. pure tt)

unfoldable pub sched_resched_callback : Prog World Control
unfolding sched_resched sched_can_preempt
sched_resched_callback = do free ← sched_can_preempt; if free then sched_resched else pure stays

unfoldable pub sched_prepare_to_suspend : Prog World (Unit {0})
unfolding get_coro
sched_prepare_to_suspend = do
  l ← get_local
  x ← get_coro l.current_coro
  put_coro l.current_coro (record x { state = blocking })

-- sched_suspend up to its compare-and-exchange: the coroutine that was taken from the run list.
unfoldable pub suspend_begin : Prog World ℕ
unfolding sched_block_preempt sched_dequeue_locked get_coro
suspend_begin = do
  sched_block_preempt
  l ← get_local
  current ← get_coro l.current_coro
  put_coro l.current_coro (record current { context = at_suspend })
  coro ← sched_dequeue_locked
  l' ← get_local
  saved ← get_coro l.current_coro
  put_coro l.current_coro (record saved { private_errno = l'.errno })
  x ← get_coro coro
  put_local (record l' { current_coro = coro; errno = x.private_errno })
  pure coro

-- context_cmpxchg_restore and what follows where it returns: `current` was awakened before it slept.
unfoldable pub suspend_commit : ℕ → ℕ → Prog World Control
unfolding context_restore sched_enqueue_locked sched_unblock_preempt get_coro
suspend_commit current coro = do
  x ← get_coro current
  if is_blocking x.state
      then (do put_coro current (record x { state = blocked }); context_restore coro)
      else (do
        l ← get_local
        put_local (record l { current_coro = current; errno = x.private_errno })
        sched_enqueue_locked coro
        sched_unblock_preempt
        pure stays)

unfoldable pub sched_suspend : Prog World Control
unfolding sched_get_current
sched_suspend = do current ← sched_get_current; coro ← suspend_begin; suspend_commit current coro

unfoldable pub sched_schedule : ℕ → Prog World (Unit {0})
unfolding sched_enqueue_locked get_coro
sched_schedule coro = do
  x ← get_coro coro
  put_coro coro (record x { state = runnable })
  if is_blocked x.state then sched_enqueue_locked coro else pure tt

unfoldable pub sched_suspend_switch : ℕ → Prog World Control
unfolding sched_switch_context
sched_suspend_switch coro = sched_switch_context coro

unfoldable pub sched_resched_switch : ℕ → Prog World Control
unfolding sched_switch_context sched_enqueue_locked
sched_resched_switch coro = do
  l ← get_local
  sched_enqueue_locked l.current_coro
  sched_switch_context coro

-- On the death stack: errno is not taken from the next coroutine.
unfoldable pub free_coro : Prog World Control
unfolding context_restore sched_dequeue_locked get_coro
free_coro = do
  l ← get_local
  x ← get_coro l.current_coro
  assert (not x.linked)
  λ w. ok tt (record w { coros = update w.coros l.current_coro none })
  next ← sched_dequeue_locked
  l' ← get_local
  put_local (record l' { current_coro = next })
  context_restore next

unfoldable pub sched_coro_die : Prog World Control
unfolding sched_block_preempt free_coro
sched_coro_die = sched_block_preempt >> free_coro
