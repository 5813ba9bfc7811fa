-- ===== src/Sched/Invariant.antt =====
-- What holds of a thread's scheduler whenever control is in a coroutine of the thread.
use shproject.Prelude.{ℕ, ◌≡◌, ◌≢◌, refl, true, false, some, List, ◌∷◌, arith, ◌∈◌, ◌∉◌, IsDistinct}
use shproject.Sched.State.{
  State, blocked, Saved, nothing, at_start, at_switch, at_suspend, Coroutine, World, Control, stays,
  starts, switched_back, resumed,
}

abbrev pub queue : World → List ℕ
queue w = w.lsched.run_list

abbrev pub current : World → ℕ
current w = w.lsched.current_coro

-- Only the event loop of the main thread is in STATE_BLOCKED without being asleep: sched_init
-- queues it in the state that sched_make_coro gives it, and it never suspends itself.
abbrev pub MayRun : World → ℕ → State → Type 0
MayRun w c s = s ≡ blocked → c ≡ w.lsched.event_loop_coro

-- The coroutine at `c` can be switched to: it is not asleep, and its context was saved.
abbrev pub IsReady : World → ℕ → Type 0
IsReady w c =
    (x : Coroutine) × (w.coros c ≡ some x)
    × (x.linked ≡ true)
    × MayRun w c x.state
    × (x.context ≢ nothing)

-- The coroutine at `c` runs: it is in no list, and not asleep.
abbrev pub IsRunning : World → ℕ → Type 0
IsRunning w c = (x : Coroutine) × (w.coros c ≡ some x) × (x.linked ≡ false) × MayRun w c x.state

-- No coroutine is queued twice or while it runs; the queued ones are ready, the running one is
-- awake and in no list, and the event loop is queued or runs.
pub record IsSound (w : World) : Type 0 where
  pub lock : w.lsched.preempt_lock ≡ false
  pub distinct : IsDistinct (current w ∷ queue w)
  pub nonnull : 0 ∉ (current w ∷ queue w)
  pub ready : (c : ℕ) → c ∈ queue w → IsReady w c
  pub running : IsRunning w (current w)
  pub looping : w.lsched.event_loop_coro ∈ (current w ∷ queue w)

-- Where control goes when a context is restored.
unfoldable pub entry : ℕ → Coroutine → Saved → Control
entry c x nothing = stays
entry c x at_start = starts x.start x.arg
entry c x at_switch = switched_back c
entry c x at_suspend = resumed c

pub entry-ne-stays : (c : ℕ) (x : Coroutine) (s : Saved) → s ≢ nothing → entry c x s ≢ stays
unfolding entry
entry-ne-stays c x nothing h e = h refl
entry-ne-stays c x at_start h e = cc
entry-ne-stays c x at_switch h e = cc
entry-ne-stays c x at_suspend h e = cc

-- The record of the running coroutine, whichever way it was found.
pub running-record :
    (w : World) (x : Coroutine)
    → IsSound w
    → w.coros (current w) ≡ some x
    → (x.linked ≡ false) × MayRun w (current w) x.state
running-record w x s e =
    let (y, found, free, up) = s.running in (ground arith, λ h. up (ground arith))
