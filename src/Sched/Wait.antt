-- ===== src/Sched/Wait.antt =====
-- Waiting for events and timers: sched_event_wait, sched_poll_event, sched_wait, the handling of
-- expired timers, the event loop, and platform/poll_epoll.c under them.
-- What the kernel answers (epoll_ctl, epoll_wait, clock_gettime, malloc) is an argument.
use shproject.Prelude.{
  ℕ, Bool, true, false, not, Option, none, some, List, [], ◌∷◌, ltb, ◌==◌, if◌then◌else◌, length,
}
use shproject.Prelude.Int.{ℤ, pos, is_positive}
use shproject.Prelude.Outcome.{
  Outcome, Prog, ok, fault, abort, out_of_fuel, pure, and_then, ◌>>=◌, ◌>>◌, assert,
}
use shproject.Heap.{Heap, heap_push, heap_min, heap_pop_min, heap_empty}
use shproject.Timer.{Timespec, TimerWait, timer_expiration, poll_timeout, is_zero}
use shproject.Sched.State.{add, del, World, Control, stays, get_local, get_wait, put_wait}
use shproject.Sched.Core.{
  is_nil, sched_prepare_to_suspend, sched_suspend, sched_schedule, sched_resched,
}
use Prim.Native.Nat.{bit_or}

-- EPOLLET and EPOLLONESHOT
abbrev pub epollet : ℕ
epollet = 0x8000_0000

abbrev pub epolloneshot : ℕ
epolloneshot = 0x4000_0000

-- What is returned, and the descriptor; `created` is what epoll_create1 answers, `none` for -1.
unfoldable platform_poll_init : Option ℕ → ℕ → ℕ × Option ℕ
platform_poll_init none errno = (errno, none)
platform_poll_init (some epoll_fd) errno = (0, some epoll_fd)

-- `result` is what epoll_ctl returns, 0 or -1, here 0 or 1.
unfoldable pub platform_poll_register : ℕ → ℕ → ℕ → ℕ → Prog World ℕ
platform_poll_register result fd events key w =
    ok result
      (record w { epoll = add fd (bit_or (bit_or events epollet) epolloneshot) key ∷ w.epoll })

unfoldable pub platform_poll_unregister : ℕ → ℕ → Prog World ℕ
platform_poll_unregister result fd w = ok result (record w { epoll = del fd ∷ w.epoll })

-- sched_event_wait up to its suspension; `key` is the address of its `struct event_wait`.
unfoldable pub event_wait_begin : ℕ → ℕ → ℕ → ℕ → Prog World Control
unfolding sched_prepare_to_suspend platform_poll_register sched_suspend
event_wait_begin key fd events result = do
  l ← get_local
  put_wait key (some (record { fd = fd; events = 0; coro = some l.current_coro }))
  sched_prepare_to_suspend
  code ← platform_poll_register result fd events key
  assert (code == 0)
  sched_suspend

-- The rest of it, when the coroutine runs again: the events that came.
unfoldable pub event_wait_end : ℕ → ℕ → Prog World ℕ
unfolding platform_poll_unregister get_wait
event_wait_end key result = do
  before ← get_wait key
  code ← platform_poll_unregister result before.fd
  assert (code == 0)
  wait ← get_wait key
  assert (not (wait.events == 0))
  put_wait key none
  pure wait.events

unfoldable pub wake_waiter : ℕ → ℕ → Option ℕ → Prog World (Unit {0})
unfolding get_wait sched_schedule
wake_waiter key revents none = pure tt
wake_waiter key revents (some coro) = do
  wait ← get_wait key
  put_wait key (some (record wait { events = revents }))
  sched_schedule coro

-- The exchange of `wait->coro` with NULL gives the coroutine to one caller only.
unfoldable pub sched_poll_event : ℕ → ℕ → Prog World (Unit {0})
unfolding get_wait wake_waiter
sched_poll_event key revents = do
  wait ← get_wait key
  put_wait key (some (record wait { coro = none }))
  wake_waiter key revents wait.coro

-- An answer of epoll_wait: the events with their keys, an interruption, or another error.
pub data Answer : Type 0 where
  ready : List (ℕ × ℕ) → Answer
  interrupted : Answer
  failed : Answer

abbrev pub max_events : ℕ
max_events = 128

-- The `for` over the events of one answer.
unfoldable pub dispatch : List (ℕ × ℕ) → Prog World (Unit {0})
unfolding sched_poll_event
dispatch [] = pure tt
dispatch ((key, revents) ∷ events) = sched_poll_event key revents >> dispatch events

-- It asks again after an interruption and after a full array of events; `false` is the result -1.
unfoldable pub platform_poll_poll : List Answer → Prog World Bool
unfolding dispatch
platform_poll_poll [] = λ _. out_of_fuel
platform_poll_poll (interrupted ∷ answers) = platform_poll_poll answers
platform_poll_poll (failed ∷ answers) = pure false
platform_poll_poll (ready events ∷ answers) =
    dispatch events
    >> (if ltb (length events) max_events then pure true else platform_poll_poll answers)

abbrev pub put_timers : {A : Type 0} → World → Outcome (Heap TimerWait) A → Outcome World A
put_timers w (ok a h) = ok a (record w { timer_heap = h })
put_timers w fault = fault
put_timers w abort = abort
put_timers w out_of_fuel = out_of_fuel

-- A call of util/heap.h on the heap of the timers.
abbrev pub on_timers : {A : Type 0} → Prog (Heap TimerWait) A → Prog World A
on_timers m w = put_timers w (m w.timer_heap)

-- sched_wait up to its suspension; nothing is left to do when the coroutine runs again.
unfoldable pub sched_wait : Bool → Timespec → Prog World Control
unfolding sched_prepare_to_suspend sched_suspend
sched_wait granted time = do
  l ← get_local
  sched_prepare_to_suspend
  code ← on_timers (heap_push granted (record { time = time; coro = l.current_coro }))
  assert (code == 0)
  sched_suspend

-- A round of sched_handle_timers for the soonest timer; `again` is the next round.
unfoldable pub handle_soonest :
    Timespec → Bool → Prog World (Unit {0}) → Option TimerWait → Prog World (Unit {0})
unfolding timer_expiration sched_schedule
handle_soonest now granted again none = pure tt
handle_soonest now granted again (some timer) =
    if not (is_positive (timer_expiration now timer))
    then (do on_timers (heap_pop_min granted); sched_schedule timer.coro; again)
    else pure tt

-- Each round reads the clock at most once, and asks realloc at most once.
unfoldable pub sched_handle_timers : List (Timespec × Bool) → Prog World (Unit {0})
unfolding handle_soonest
sched_handle_timers [] = λ w. if heap_empty w.timer_heap then ok tt w else out_of_fuel
sched_handle_timers ((now, granted) ∷ readings) =
    let again = sched_handle_timers readings in
    λ w.
      if heap_empty w.timer_heap
      then ok tt w
      else and_then (on_timers heap_min w) (handle_soonest now granted again)

unfoldable pub sched_poll_timeout : Timespec → Prog World ℤ
unfolding poll_timeout
sched_poll_timeout now = do
  l ← get_local
  if not (is_nil l.run_list)
      then pure (pos 0)
      else (do timer ← on_timers heap_min; pure (poll_timeout (is_nil l.run_list) timer now))

-- One round of the `for` of sched_loop. `exit` ends the process as a failed assertion does.
unfoldable pub sched_loop_round :
    Timespec → List Answer → List (Timespec × Bool) → Prog World Control
unfolding sched_poll_timeout platform_poll_poll sched_handle_timers sched_resched
sched_loop_round now answers readings = do
  timeout ← sched_poll_timeout now
  events ← platform_poll_poll answers
  assert events
  sched_handle_timers readings
  if is_zero timeout then sched_resched else pure stays
