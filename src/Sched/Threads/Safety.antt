-- ===== src/Sched/Threads/Safety.antt =====
-- Every step keeps the threads consistent, and the coroutines that are runnable.
use shproject.Prelude.{ℕ, ◌≡◌, Bool, false, ◌==◌, Option-cases, inl, inr}
use shproject.Sched.Threads.{
  Machine, view, Step, announce, begin, commit, wake, die, create, spawn, yield, Reach, here, next,
}
use shproject.Sched.Threads.Places.{IsConsistent}
use shproject.Sched.Threads.Steps.{Returns-at, schedule_fault}
use shproject.Sched.Threads.Arrivals.{create_lem, spawn_lem, wake_lem}
use shproject.Sched.Threads.Calls.{IsUp, announce_lem, begin_lem, yield_lem, die_lem, commit_lem}

-- Whether the step is one by which `c` itself announces that it sleeps, or ends.
abbrev pub puts_down : {main : ℕ} {m m' : Machine} → Step main m m' → ℕ → Bool
puts_down {m = m} (announce i _ _ _) c = c == (m.locals i).current_coro
puts_down {m = m} (die i _ _ _ _) c = c == (m.locals i).current_coro
puts_down _ c = false

-- The queues of the threads, the coroutines that run and those that are about to sleep agree with the
-- coroutines' own records after every step of a thread, and a coroutine that is runnable stays so.
pub Step-Keeps :
    {main : ℕ} {m m' : Machine}
    → IsConsistent main m
    → (s : Step main m m')
    → IsConsistent main m' × ((c : ℕ) → puts_down s c ≡ false → IsUp m.shared c → IsUp m'.shared c)
Step-Keeps {main = main} {m = m} (place, v) (announce i p quiet run) =
    Returns-at (announce_lem main m place v i p quiet) run
Step-Keeps {main = main} {m = m} (place, v) (begin i p quiet awake off run) =
    Returns-at (begin_lem main m place v i p quiet awake off) run
Step-Keeps {main = main} {m = m} (place, v) (commit i a p busy run) =
    Returns-at (commit_lem main m place v i p a busy) run
Step-Keeps {main = main} {m = m} (place, v) (wake i c p quiet off nz run) =
    elim (Option-cases (m.shared.coros c)) [
      | inl gone ↦ absurd (schedule_fault (view m i) c gone run)
      | inr (x, e) ↦ Returns-at (wake_lem main m place v i p quiet c x e off nz) run
    ]
Step-Keeps {main = main} {m = m} (place, v) (die i p quiet awake run) =
    Returns-at (die_lem main m place v i p quiet awake) run
Step-Keeps {main = main} {m = m} (place, v)
      (create i fresh thread start arg p quiet full e nz off run) =
    Returns-at (create_lem main m place v i p quiet fresh thread start arg full e nz off) run
Step-Keeps {main = main} {m = m} (place, v)
      (spawn i fresh thread start arg p quiet room e e' nz nz' apart run) =
    Returns-at (spawn_lem main m place v i p quiet fresh thread start arg room e e' nz nz' apart)
      run
Step-Keeps {main = main} {m = m} (place, v) (yield i p quiet run) =
    Returns-at (yield_lem main m place v i p quiet) run

pub Reach-IsConsistent :
    {main : ℕ} {m m' : Machine} → IsConsistent main m → Reach main m m' → IsConsistent main m'
Reach-IsConsistent v here = v
Reach-IsConsistent v (next r s) = (Step-Keeps (Reach-IsConsistent v r) s).0
