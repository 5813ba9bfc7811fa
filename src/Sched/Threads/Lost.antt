-- ===== src/Sched/Threads/Lost.antt =====
-- What the places say of the threads: where a coroutine is that is not blocked, and that it is there
-- only.
use shproject.Prelude.{
  ℕ, ◌≡◌, ◌≢◌, refl, ◌<◌, true, Option, none, some, ◌∈◌, arith, Option-cases, inl, inr, ◌⊎◌,
}
use shproject.Prelude.Outcome.{Returns, Returns-mono}
use shproject.Sched.Core.{sched_prepare_to_suspend, sched_resched, suspend_commit}
use shproject.Sched.State.{blocked, Coroutine}
use shproject.Sched.Threads.{Machine, view, leave, Reach}
use shproject.Sched.Threads.Places.{
  Place, asleep, queued, running, parked, is_pending, IsPlaced, IsConsistent,
}
use shproject.Sched.Threads.Safety.{Reach-IsConsistent}
use shproject.Sched.Threads.Calls.{announce_lem, yield_lem, commit_lem}

-- The coroutine is in the thread's queue, runs there, or is about to sleep there.
abbrev pub IsOn : Machine → ℕ → ℕ → Type 0
IsOn m i c =
    (c ∈ (m.locals i).run_list) ⊎ (((m.locals i).current_coro ≡ c) ⊎ (m.pending i ≡ some c))

pending-some : (c : ℕ) (o : Option ℕ) → is_pending c o ≡ true → o ≡ some c
pending-some c none h = cc
pending-some c (some a) h = ground arith

placed :
    (n main : ℕ) (m : Machine) (place : ℕ → Place) (c : ℕ) (l : Place)
    → IsPlaced n main m place
    → place c ≡ l
    → (l ≡ asleep) ⊎ ((i : ℕ) × (i < n) × IsOn m i c)
placed n main m place c asleep v e = inl refl
placed n main m place c (queued i) v e =
    let p : i < n = ground (arith, v.range c) in inr (i, p, inl (ground (arith, v.in_queue i p c)))
placed n main m place c (running i) v e =
    let p : i < n = ground (arith, v.range c) in
    inr (i, p, inr (inl (ground (arith, v.in_turn i p c))))
placed n main m place c (parked i) v e =
    let p : i < n = ground (arith, v.range c) in
    inr (i, p, inr (inr (pending-some c (m.pending i) (ground (arith, v.in_park i p c)))))

-- In every state that the threads reach from a consistent one, a coroutine that is not in
-- STATE_BLOCKED is in the queue of a thread, runs on one, or is being suspended by one.
pub Reach-not_lost :
    (main : ℕ) (m m' : Machine) (c : ℕ) (x : Coroutine)
    → IsConsistent main m
    → Reach main m m'
    → m'.shared.coros c ≡ some x
    → x.state ≢ blocked
    → (i : ℕ) × (i < m'.threads) × IsOn m' i c
Reach-not_lost main m m' c x v r e up =
    let (place, w) = Reach-IsConsistent v r in
    elim (placed m'.threads main m' place c (place c) w refl) [
      | inl down ↦ absurd (up (ground (arith, w.fits c x e)))
      | inr on ↦ on
    ]

-- In every state that the threads reach from a consistent one, a coroutine that is on one thread is on no other.
pub Reach-exclusive :
    (main : ℕ) (m m' : Machine) (c i j : ℕ)
    → IsConsistent main m
    → Reach main m m'
    → i < m'.threads
    → j < m'.threads
    → i ≢ j
    → IsOn m' i c
    → ¬ IsOn m' j c
Reach-exclusive main m m' c i j v r p q apart on on' =
    let (place, w) = Reach-IsConsistent v r in
    let same : i ≡ j = ground (
      arith,
      w.in_queue i p c,
      w.in_turn i p c,
      w.in_park i p c,
      w.in_queue j q c,
      w.in_turn j q c,
      w.in_park j q c,
    ) in
    apart same

-- What a thread can always do: between calls it can announce a suspension and yield; in a suspension
-- it can finish it.
abbrev pub CanGoOn : ℕ → Machine → ℕ → Type 0
CanGoOn main m i =
    ((m.pending i ≡ none)
      × Returns (λ _ w. IsConsistent main (leave m i w none)) (sched_prepare_to_suspend (view m i))
      × Returns (λ _ w. IsConsistent main (leave m i w none)) (sched_resched (view m i)))
    ⊎ ((a : ℕ) × (m.pending i ≡ some a)
        × Returns (λ _ w. IsConsistent main (leave m i w none))
            (suspend_commit a (m.locals i).current_coro (view m i)))

-- In every state that the threads reach from a consistent one, a thread can announce a suspension and
-- yield, or finish the suspension that it has begun: these return, and leave the threads consistent.
pub Reach-CanGoOn :
    (main : ℕ) (m m' : Machine) (i : ℕ)
    → IsConsistent main m
    → Reach main m m'
    → i < m'.threads
    → CanGoOn main m' i
Reach-CanGoOn main m m' i v r p =
    let (place, w) = Reach-IsConsistent v r in
    elim (Option-cases (m'.pending i)) [
      | inl quiet ↦ inl (
        quiet,
        Returns-mono (announce_lem main m' place w i p quiet) λ _ _ k. k.0,
        Returns-mono (yield_lem main m' place w i p quiet) λ _ _ k. k.0,
      )
      | inr (a, busy) ↦
          inr (a, busy, Returns-mono (commit_lem main m' place w i p a busy) λ _ _ k. k.0)
    ]
