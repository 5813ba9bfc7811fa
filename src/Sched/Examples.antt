-- ===== src/Sched/Examples.antt =====
-- A concrete world: the coroutine 1 runs, the event loop 2 is queued, 3 sleeps.
use shproject.Prelude.{refl, true, false, none, some, [], ◌∷◌, arith, ◌==◌, if◌then◌else◌, inl}
use shproject.Heap.{heap_init}
use shproject.Timer.{Timespec, TimerWait, timer_compare}
use shproject.Timer.Order.{rank}
use shproject.Heap.Order.{IsHeap}
use shproject.Sched.Timers.{timed-IsSound}
use shproject.Sched.Expire.{IsTimer}
use shproject.Sched.State.{
  runnable, blocked, nothing, at_start, at_suspend, Coroutine, EventWait, World,
}
use shproject.Sched.Init.{no_local}
use shproject.Sched.Invariant.{IsSound}
use shproject.Sched.Schedule.{IsAsleep}

abbrev pub running : Coroutine
running = record {
  state = runnable;
  context = nothing;
  linked = false;
  private_errno = 0;
  start = 0;
  arg = 0;
}

abbrev pub loop : Coroutine
loop = record {
  state = blocked;
  context = at_start;
  linked = true;
  private_errno = 0;
  start = 77;
  arg = 0;
}

abbrev pub sleeper : Coroutine
sleeper = record {
  state = blocked;
  context = at_suspend;
  linked = false;
  private_errno = 4;
  start = 78;
  arg = 9;
}

abbrev pub waiting : EventWait
waiting = record { fd = 5; events = 0; coro = some 3 }

abbrev pub three : World
three = record {
  coros = λ c.
      if c == 1
      then some running
      else if c == 2
      then some loop
      else if c == 3
      then some sleeper
      else none;
  lsched = record no_local { run_list = 2 ∷ []; current_coro = 1; event_loop_coro = 2; errno = 11 };
  local_schedulers = λ _. none;
  waits = λ key. if key == 90 then some waiting else none;
  timer_heap = (heap_init true timer_compare).0;
  local_size = 1;
  local_count = 1;
  epoll = [];
}

pub three-IsSound : IsSound three
three-IsSound = record {
  lock = refl;
  distinct = ground arith;
  nonnull = refl;
  ready = λ c i. (loop, ground arith, refl, λ h. ground arith, λ h. absurd cc);
  running = (running, refl, refl, λ h. absurd cc);
  looping = refl;
}

pub sleeper-IsAsleep : IsAsleep three 3 sleeper
sleeper-IsAsleep = record {
  found = refl;
  state = refl;
  free = refl;
  saved = λ h. absurd cc;
  nonnull = refl;
  idle = refl;
}

abbrev pub noon : Timespec
noon = record { sec = 43200; nsec = 0 }

pub no_timers-IsHeap : (Fit : TimerWait → Type 0) → IsHeap Fit rank three.timer_heap
unfolding heap_init
no_timers-IsHeap Fit = record {
  room = omega arith;
  sized = omega arith;
  ordered = record { live = λ i p q. absurd (omega arith); order = λ c p q. absurd (omega arith) };
}

-- The sleeper's timer for 7 s is the only one.
abbrev pub one_timer : World
one_timer = record three {
  timer_heap = record {
    block = record {
      length = 16;
      cell = λ i.
          if i == 1 then some (record { time = record { sec = 7; nsec = 0 }; coro = 3 }) else none;
    };
    size = 16;
    items = 1;
    compare = timer_compare;
  };
}

pub one_timer-IsSound : IsSound one_timer
one_timer-IsSound = timed-IsSound three one_timer.timer_heap three-IsSound

pub one_timer-IsHeap : IsHeap (IsTimer one_timer) rank one_timer.timer_heap
one_timer-IsHeap = record {
  room = omega arith;
  sized = omega arith;
  ordered = record {
    live = λ i p q. (
      record { time = record { sec = 7; nsec = 0 }; coro = 3 },
      ground arith,
      (
        record { normal = omega arith; early = omega arith },
        (
          sleeper,
          inl (record {
            found = refl;
            state = refl;
            free = refl;
            saved = λ h. absurd cc;
            nonnull = refl;
            idle = refl;
          }),
        ),
      ),
    );
    order = λ c p q. absurd (omega arith);
  };
}
