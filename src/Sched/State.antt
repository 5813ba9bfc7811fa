-- ===== src/Sched/State.antt =====
-- The state of scheduler.c, and its smallest operations.
-- A coroutine is named by its address. A state is seen from the thread that runs, whose local
-- scheduler is `lsched`. The run list is the ring of util/list.h (shproject.Ring), here the list of
-- the coroutines in it. A section under a mutex is one step, so the locks are left out;
-- SCHED_PREEMPTION is on.
use shproject.Prelude.{ℕ, Bool, true, false, not, Option, none, some, List, [], ◌∷◌, ◌++◌}
use shproject.Prelude.Outcome.{Prog, ok, fault, pure, ◌>>=◌, ◌>>◌, assert}
use shproject.Heap.{Heap, update}
use shproject.Timer.{TimerWait}

-- STATE_RUNNABLE, STATE_BLOCKING, STATE_BLOCKED; `unset` is what malloc left there.
pub data State : Type 0 where
  runnable blocking blocked unset : State

-- What was last saved in a `struct context`: nothing, the entry of coro_trampoline by
-- _context_create, or a point in sched_switch_context or in sched_suspend by context_save.
pub data Saved : Type 0 where
  nothing at_start at_switch at_suspend : Saved

-- `struct coroutine`; `linked` is list_in_list of its node.
pub record Coroutine : Type 0 where
  pub state : State
  pub context : Saved
  pub linked : Bool
  pub private_errno : ℕ
  pub start : ℕ
  pub arg : ℕ

-- `struct local_sched`, with the thread's errno. `inactive_list` is never used.
pub record LocalSched : Type 0 where
  pub run_list : List ℕ
  pub current_coro : ℕ
  pub event_loop_coro : ℕ
  pub preempt_lock : Bool
  pub errno : ℕ

-- `struct event_wait`, on the stack of the waiting coroutine.
pub record EventWait : Type 0 where
  pub fd : ℕ
  pub events : ℕ
  pub coro : Option ℕ

-- The calls of epoll_ctl, latest first: EPOLL_CTL_ADD with the events and the key, EPOLL_CTL_DEL.
pub data EpollCall : Type 0 where
  add : (fd events key : ℕ) → EpollCall
  del : (fd : ℕ) → EpollCall

-- The process as a thread sees it: `struct global_sched`, what its pointers lead to, the thread's
-- own scheduler, and the kernel's poller. `local_schedulers` holds each
-- thread's as it was when it was put there: nothing reads them.
pub record World : Type 0 where
  pub coros : ℕ → Option Coroutine
  pub lsched : LocalSched
  pub local_schedulers : ℕ → Option LocalSched
  pub waits : ℕ → Option EventWait
  pub timer_heap : Heap TimerWait
  pub local_size : ℕ
  pub local_count : ℕ
  pub epoll : List EpollCall

-- Where control goes when a scheduler call is over: on in the caller, to the start function of a
-- new coroutine, or back to a coroutine that had switched away or had been suspended.
pub data Control : Type 0 where
  stays : Control
  starts : (start arg : ℕ) → Control
  switched_back : ℕ → Control
  resumed : ℕ → Control

abbrev pub get_local : Prog World LocalSched
get_local w = ok w.lsched w

abbrev pub put_local : LocalSched → Prog World (Unit {0})
put_local l w = ok tt (record w { lsched = l })

-- A read through a pointer to a coroutine: a fault if it was freed or never allocated.
unfoldable pub get_coro : ℕ → Prog World Coroutine
get_coro c w = elim (w.coros c) [ none ↦ fault | some x ↦ ok x w ]

abbrev pub put_coro : ℕ → Coroutine → Prog World (Unit {0})
put_coro c x w = ok tt (record w { coros = update w.coros c (some x) })

unfoldable pub get_wait : ℕ → Prog World EventWait
get_wait key w = elim (w.waits key) [ none ↦ fault | some x ↦ ok x w ]

abbrev pub put_wait : ℕ → Option EventWait → Prog World (Unit {0})
put_wait key x w = ok tt (record w { waits = update w.waits key x })

unfoldable pub sched_block_preempt : Prog World (Unit {0})
sched_block_preempt = do
  l ← get_local
  assert (not l.preempt_lock)
  put_local (record l { preempt_lock = true })

unfoldable pub sched_unblock_preempt : Prog World (Unit {0})
sched_unblock_preempt = do
  l ← get_local
  assert l.preempt_lock
  put_local (record l { preempt_lock = false })

unfoldable pub sched_can_preempt : Prog World Bool
sched_can_preempt = do l ← get_local; pure (not l.preempt_lock)

unfoldable pub sched_get_current : Prog World ℕ
sched_get_current = do l ← get_local; pure l.current_coro

-- sched_errno is what it points to, of the thread that the caller runs on.
unfoldable sched_get_errno : Prog World ℕ
sched_get_errno = do l ← get_local; pure l.errno

-- list_pop_front of an empty ring returns the sentinel, which the `assert` lets pass: the
-- coroutine that is computed from it is no coroutine.
unfoldable pub pop_run_list : LocalSched → List ℕ → Prog World ℕ
unfolding get_coro
pop_run_list l [] = λ _. fault
pop_run_list l (c ∷ rest) = do
  x ← get_coro c
  put_coro c (record x { linked = false })
  put_local (record l { run_list = rest })
  pure c

unfoldable pub sched_dequeue_locked : Prog World ℕ
unfolding pop_run_list
sched_dequeue_locked = do l ← get_local; pop_run_list l l.run_list

-- sched_enqueue_locked on any local scheduler, which it returns.
unfoldable pub enqueue_on : LocalSched → ℕ → Prog World LocalSched
unfolding get_coro
enqueue_on local coro = do
  x ← get_coro coro
  assert (not x.linked)
  put_coro coro (record x { linked = true })
  pure (record local { run_list = local.run_list ++ coro ∷ [] })

-- sched_enqueue_locked on the thread's own scheduler.
unfoldable pub sched_enqueue_locked : ℕ → Prog World (Unit {0})
unfolding enqueue_on
sched_enqueue_locked coro = do l ← get_local; l' ← enqueue_on l coro; put_local l'
