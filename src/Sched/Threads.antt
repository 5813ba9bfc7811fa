-- ===== src/Sched/Threads.antt =====
-- The scheduler on several threads, each with its local scheduler, in any order of their steps.
-- A thread's queue and its `current_coro` are written by the thread alone, as no work is stolen; what
-- threads share are the coroutines, whose states they exchange.
pub mod Places
pub mod Moves
pub mod Wakes
pub mod Steps
pub mod Calls
pub mod Arrivals
pub mod Safety
pub mod Lost
pub mod Woken
pub mod Start
mod Tests
use shproject.Prelude.{
  ℕ, ◌+◌, true, leb, ◌≡◌, ◌≢◌, ◌<◌, false, ◌==◌, Option, none, some, List, [], ◌∷◌,
}
use shproject.Prelude.Outcome.{ok}
use shproject.Heap.{update}
use shproject.Sched.Init.{sched_new_coroutine}
use shproject.Sched.Spawn.{started}
use shproject.Sched.State.{LocalSched, World, Control}
use shproject.Sched.Core.{
  sched_coro_die, sched_resched, sched_prepare_to_suspend, suspend_begin, suspend_commit,
  sched_schedule,
}

-- `locals` are the schedulers of the first `threads` threads, of `shared` all but `lsched` counts, and `pending` tells the
-- coroutine that a thread has begun to suspend.
pub record Machine : Type 0 where
  pub threads : ℕ
  pub shared : World
  pub locals : ℕ → LocalSched
  pub pending : ℕ → Option ℕ

-- What thread `i` sees, and what it leaves.
abbrev pub view : Machine → ℕ → World
view m i = record m.shared { lsched = m.locals i }

abbrev pub leave : Machine → ℕ → World → Option ℕ → Machine
leave m i w p = record {
  threads = m.threads;
  shared = w;
  locals = update m.locals i w.lsched;
  pending = update m.pending i p;
}

-- The threads when thread `i` has started another one.
abbrev pub joined : Machine → ℕ → ℕ → ℕ → World → Machine
joined m i fresh thread w = record {
  threads = m.threads + 1;
  shared = w;
  locals = update (update m.locals i w.lsched) m.threads (started fresh thread);
  pending = update (update m.pending i none) m.threads none;
}

-- A step of a thread. What malloc returns is not in use, and `fresh` is not NULL. `main` is the event loop that sched_init made.
-- Neither an event loop suspends itself or ends, nor is the one of the main thread awakened.
pub data Step (main : ℕ) (m : Machine) : Machine → Type 0 where
  announce :
      {w : World} (i : ℕ)
      → i < m.threads
      → m.pending i ≡ none
      → sched_prepare_to_suspend (view m i) ≡ ok tt w
      → Step main m (leave m i w none)
  begin :
      {w : World} {c : ℕ} (i : ℕ)
      → i < m.threads
      → m.pending i ≡ none
      → (m.locals i).event_loop_coro ≢ (m.locals i).current_coro
      → (m.locals i).current_coro ≢ main
      → suspend_begin (view m i) ≡ ok c w
      → Step main m (leave m i w (some (m.locals i).current_coro))
  commit :
      {w : World} {ctl : Control} (i a : ℕ)
      → i < m.threads
      → m.pending i ≡ some a
      → suspend_commit a (m.locals i).current_coro (view m i) ≡ ok ctl w
      → Step main m (leave m i w none)
  wake :
      {w : World} (i c : ℕ)
      → i < m.threads
      → m.pending i ≡ none
      → c ≢ main
      → (c == 0) ≡ false
      → sched_schedule c (view m i) ≡ ok tt w
      → Step main m (leave m i w none)
  die :
      {w : World} {ctl : Control} (i : ℕ)
      → i < m.threads
      → m.pending i ≡ none
      → (m.locals i).event_loop_coro ≢ (m.locals i).current_coro
      → sched_coro_die (view m i) ≡ ok ctl w
      → Step main m (leave m i w none)
  create :
      {w : World} {r : ℕ} (i fresh thread start arg : ℕ)
      → i < m.threads
      → m.pending i ≡ none
      → leb m.shared.local_size m.shared.local_count ≡ true
      → m.shared.coros fresh ≡ none
      → (fresh == 0) ≡ false
      → fresh ≢ main
      → sched_new_coroutine fresh thread start arg (view m i) ≡ ok r w
      → Step main m (leave m i w none)
  spawn :
      {w : World} {r : ℕ} (i fresh thread start arg : ℕ)
      → i < m.threads
      → m.pending i ≡ none
      → leb m.shared.local_size m.shared.local_count ≡ false
      → m.shared.coros fresh ≡ none
      → m.shared.coros thread ≡ none
      → (fresh == 0) ≡ false
      → (thread == 0) ≡ false
      → (thread == fresh) ≡ false
      → sched_new_coroutine fresh thread start arg (view m i) ≡ ok r w
      → Step main m (joined m i fresh thread w)
  yield :
      {w : World} {ctl : Control} (i : ℕ)
      → i < m.threads
      → m.pending i ≡ none
      → sched_resched (view m i) ≡ ok ctl w
      → Step main m (leave m i w none)

-- Any number of steps.
pub data Reach (main : ℕ) (m : Machine) : Machine → Type 0 where
  here : Reach main m m
  next : {m' m'' : Machine} → Reach main m m' → Step main m' m'' → Reach main m m''
