-- ===== src/Sched/Threads/Woken.antt =====
-- A wake-up on several threads, and what the threads do then.
use shproject.Prelude.{ℕ, ◌≡◌, ◌≢◌, ◌<◌, false, Option, none, some, ◌==◌, arith}
use shproject.Prelude.Outcome.{ok}
use shproject.Sched.Core.{sched_schedule}
use shproject.Sched.State.{runnable, Coroutine, World}
use shproject.Sched.Threads.{Machine, view, leave, Step, wake, Reach, next}
use shproject.Sched.Threads.Places.{IsConsistent}
use shproject.Sched.Threads.Calls.{state_of, IsUp}
use shproject.Sched.Threads.Safety.{puts_down, Step-Keeps, Reach-IsConsistent}
use shproject.Sched.Threads.Lost.{IsOn, Reach-not_lost}

-- Any number of steps of the threads, in which `c` itself neither announces that it sleeps nor ends.
pub data Meanwhile (main c : ℕ) (m : Machine) : Machine → Type 0 where
  still : Meanwhile main c m m
  step :
      {m' m'' : Machine}
      → Meanwhile main c m m'
      → (s : Step main m' m'') → puts_down s c ≡ false
      → Meanwhile main c m m''

Meanwhile-Reach :
    {main c : ℕ} {m m' m'' : Machine} → Reach main m m' → Meanwhile main c m' m'' → Reach main m m''
Meanwhile-Reach r still = r
Meanwhile-Reach r (step t s _) = next (Meanwhile-Reach r t) s

Meanwhile-IsUp :
    {main c : ℕ} {m m' m'' : Machine}
    → IsConsistent main m
    → Reach main m m'
    → Meanwhile main c m' m''
    → IsUp m'.shared c
    → IsUp m''.shared c
Meanwhile-IsUp v r still up = up
Meanwhile-IsUp {c = c} v r (step t s out) up =
    (Step-Keeps (Reach-IsConsistent v (Meanwhile-Reach r t)) s).1 c out (Meanwhile-IsUp v r t up)

schedule-IsUp : (w g : World) (c : ℕ) → sched_schedule c w ≡ ok tt g → IsUp g c
unfolding sched_schedule
schedule-IsUp w g c run = ground arith

coroutine_of :
    (o : Option Coroutine)
    → state_of o ≡ some runnable
    → (x : Coroutine) × (o ≡ some x) × (x.state ≡ runnable)
coroutine_of none up = absurd cc
coroutine_of (some x) up = (x, cc, cc)

-- No wake-up is lost: in a state that the threads reach from a consistent one, thread `i`, which is not
-- in a suspension, awakens `c`, which is not NULL nor the main thread's event loop, whatever `c` is
-- doing then. As long as `c` does not itself announce again that it sleeps, and does
-- not end, it is runnable and in the queue of a thread, runs on one, or is being suspended by one,
-- whatever steps the threads take, in whatever order.
pub Reach-woken :
    (main : ℕ) (m m' m'' : Machine) (i c : ℕ) (w : World)
    → IsConsistent main m
    → Reach main m m'
    → i < m'.threads
    → m'.pending i ≡ none
    → c ≢ main
    → (c == 0) ≡ false
    → sched_schedule c (view m' i) ≡ ok tt w
    → Meanwhile main c (leave m' i w none) m''
    → (x : Coroutine) × (m''.shared.coros c ≡ some x)
      × (x.state ≡ runnable)
      × (j : ℕ) × (j < m''.threads)
      × IsOn m'' j c
Reach-woken main m m' m'' i c w v r p quiet off nz run t =
    let woken = next r (wake i c p quiet off nz run) in
    let (x, found, up) =
      coroutine_of (m''.shared.coros c)
        (Meanwhile-IsUp v woken t (schedule-IsUp (view m' i) w c run)) in
    let (j, p', on) = Reach-not_lost main m m'' c x v (Meanwhile-Reach woken t) found (λ h. cc) in
    (x, found, up, j, p', on)
