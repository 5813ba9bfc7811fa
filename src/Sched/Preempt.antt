-- ===== src/Sched/Preempt.antt =====
-- The preemption timer: its signal may come between any two steps of a coroutine.
use shproject.Prelude.{ℕ, ◌≡◌, refl, true, false, List, [], ◌∷◌, ◌++◌, arith, ◌==◌, if◌then◌else◌}
use shproject.Prelude.Outcome.{Prog, ok, abort, pure, ◌>>=◌, ◌>>◌, Returns, Returns-mono}
use shproject.Sched.State.{World, stays}
use shproject.Sched.Core.{sched_resched_with, sched_resched, sched_resched_callback, suspend_begin}
use shproject.Sched.Invariant.{queue, current, IsSound}
use shproject.Sched.Resched.{sched_resched_lem}
use shproject.Sched.Suspend.{begun, begin_run}

append-cons : (xs : List ℕ) (a : ℕ) → (y : ℕ) × (ys : List ℕ) × (xs ++ a ∷ [] ≡ y ∷ ys)
append-cons [] a = (a, [], refl)
append-cons (x ∷ xs) a = (x, xs ++ a ∷ [], refl)

pub callback_run :
    (w : World) → w.lsched.preempt_lock ≡ false → sched_resched_callback w ≡ sched_resched w
unfolding sched_resched_callback
callback_run w e = ground arith

callback_blocked :
    (w : World) → w.lsched.preempt_lock ≡ true → sched_resched_callback w ≡ ok stays w
unfolding sched_resched_callback
callback_blocked w e = ground arith

-- A signal that comes while a coroutine suspends itself changes nothing: the suspension goes on as if
-- it had not come.
pub suspend_begin-preempted :
    (w : World) (c : ℕ) (rest : List ℕ)
    → IsSound w
    → queue w ≡ c ∷ rest
    → (suspend_begin >>= λ next. sched_resched_callback >> λ g. ok next g) w ≡ suspend_begin w
suspend_begin-preempted w c rest s q =
    let (x, ea, free, up) = s.running in
    let (y, ec, linked, up', saved) = s.ready c (ground (arith, q)) in
    let ne : (c == current w) ≡ false = ground (arith, q, s.distinct) in
    rw
      (
        begin_run w (current w) c x y rest s.lock refl q ne ea ec,
        callback_blocked (begun w (current w) x c y rest) refl,
      )
      refl

-- The signal of the timer comes once, after the k-th call of the function that it interrupts.
unfoldable pub signal_at : ℕ → ℕ → Prog World (Unit {0})
unfolding sched_resched_callback
signal_at k n = if n == k then (sched_resched_callback >> pure tt) else pure tt

-- From a sound state with a coroutine queued, and without a signal, sched_resched runs the first of
-- the queue. A signal that comes in it when the caller has been queued, before or after the next
-- coroutine is dequeued, queues the caller a second time: an assertion fails.
pub sched_resched-preempted :
    (w : World) (c : ℕ) (rest : List ℕ)
    → IsSound w
    → queue w ≡ c ∷ rest
    → Returns (λ _ g. current g ≡ c) (sched_resched w)
      × (sched_resched_with (signal_at 1) w ≡ abort)
      × (sched_resched_with (signal_at 2) w ≡ abort)
unfolding sched_resched_with signal_at
sched_resched-preempted w c rest s q =
    let (x, ea, free, up) = s.running in
    let (y, ec, linked, up', saved) = s.ready c (ground (arith, q)) in
    let ne : (c == current w) ≡ false = ground (arith, q, s.distinct) in
    let some_left = append-cons rest (current w) in
    let lock = s.lock in
    (Returns-mono (sched_resched_lem w c rest s q) λ _ _ (_, y). y.next, ground arith, ground arith)
