-- ===== src/Sched/Threads/Calls.antt =====
-- What each call of a thread keeps: the threads' consistency, and the coroutines that are runnable.
use shproject.Prelude.{
  ℕ, Bool, Option, ◌≡◌, ◌≢◌, refl, ◌<◌, true, false, none, some, ◌==◌, arith, Bool-cases,
  Option-cases, inl, inr,
}
use shproject.Prelude.Outcome.{Returns, returns}
use shproject.Sched.State.{State, runnable, Coroutine, World}
use shproject.Sched.Core.{
  is_blocking, sched_coro_die, sched_resched, sched_prepare_to_suspend, suspend_begin,
  suspend_commit,
}
use shproject.Sched.Threads.{Machine, view, leave}
use shproject.Sched.Threads.Places.{Place, asleep, queued, running, parked, IsPlaced, IsConsistent}
use shproject.Sched.Threads.Moves.{
  my_place, announce-IsPlaced, begin-IsPlaced, sleep-IsPlaced, stay-IsPlaced, queued_on-place,
  runs_on-place, parked_on-place,
}
use shproject.Sched.Threads.Wakes.{still-IsPlaced, die-IsPlaced, yield-IsPlaced}
use shproject.Sched.Wake.{prepare_run}
use shproject.Sched.Resched.{resched_run}
use shproject.Sched.Die.{die_run}
use shproject.Sched.Suspend.{begin_run}
use shproject.Sched.Threads.Steps.{
  cons-cases, commit_sleeps, commit_stays, resched_empty, blocking-state,
}

-- The state of a coroutine, if there is one at the address.
abbrev pub state_of : Option Coroutine → Option State
state_of none = none
state_of (some x) = some x.state

-- Whether a coroutine is in STATE_RUNNABLE.
abbrev pub IsUp : World → ℕ → Type 0
IsUp w c = state_of (w.coros c) ≡ some runnable

-- A call of thread `i` that ends with `w` leaves the threads as `m'`, consistent, and no runnable
-- coroutine but those of `but` is in another state.
abbrev pub Keeps : ℕ → Machine → World → (ℕ → Bool) → Machine → Type 0
Keeps main m w but m' =
    IsConsistent main m' × ((c : ℕ) → but c ≡ false → IsUp m.shared c → IsUp w c)

module _ (main : ℕ) (m : Machine) (place : ℕ → Place) (v : IsPlaced m.threads main m place) (i : ℕ)
    (p : i < m.threads) where
  -- The record of a coroutine that is somewhere.
  record_of : (c : ℕ) → place c ≢ asleep → (x : Coroutine) × (m.shared.coros c ≡ some x)
  record_of c up = elim (Option-cases (m.shared.coros c)) [
    | inl gone ↦ absurd (up (v.live c gone))
    | inr found ↦ found
  ]

  module _ (quiet : m.pending i ≡ none) where
    here_place : place (m.locals i).current_coro ≡ running i
    here_place = my_place m.threads main m place v i p quiet

    pub announce_lem :
        Returns
          (λ _ w. Keeps main m w (λ c. c == (m.locals i).current_coro) (leave m i w none))
          (sched_prepare_to_suspend (view m i))
    announce_lem =
        let (x, e) = record_of (m.locals i).current_coro (λ h. ground (arith, here_place)) in
        rw (prepare_run (view m i) x e) (
          returns (
            (place, announce-IsPlaced m.threads main m place v i p quiet x e),
            λ c' out up'. ground arith,
          ))

    pub begin_lem :
        (m.locals i).event_loop_coro ≢ (m.locals i).current_coro
        → (m.locals i).current_coro ≢ main
        → Returns
            (λ c w. Keeps main m w (λ c. false) (leave m i w (some (m.locals i).current_coro)))
            (suspend_begin (view m i))
    begin_lem awake off = elim (cons-cases (m.locals i).run_list) [
      | inl empty ↦ absurd (ground (arith, v.loop i p))
      | inr (c, rest, h) ↦
          let there : place c ≡ queued i =
            queued_on-place i (place c) (ground (arith, v.in_queue i p c, h)) in
          let (x, e) = record_of (m.locals i).current_coro (λ h. ground (arith, here_place)) in
          let (y, e') = record_of c (λ h. ground (arith, there)) in
          rw
            (begin_run (view m i) (m.locals i).current_coro c x y rest (ground (arith, v.lock i p))
              refl h (ground (arith, here_place, there)) e e')
            (returns (
              (_, begin-IsPlaced m.threads main m place v i p quiet c x y rest h e e' off awake),
              λ c' out up'. ground arith,
            ))
    ]

    pub yield_lem :
        Returns (λ _ w. Keeps main m w (λ c. false) (leave m i w none)) (sched_resched (view m i))
    yield_lem = elim (cons-cases (m.locals i).run_list) [
      | inl empty ↦ rw (resched_empty (view m i) empty) (
          returns (
            (place, still-IsPlaced m.threads main m place v i p quiet),
            λ c' out up'. ground arith,
          ))
      | inr (c, rest, h) ↦
          let there : place c ≡ queued i =
            queued_on-place i (place c) (ground (arith, v.in_queue i p c, h)) in
          let (x, e) = record_of (m.locals i).current_coro (λ h. ground (arith, here_place)) in
          let (y, e') = record_of c (λ h. ground (arith, there)) in
          rw
            (resched_run (view m i) (m.locals i).current_coro c x y rest
              (ground (arith, v.lock i p)) refl h (ground (arith, here_place, v.null))
              (ground (arith, here_place, there)) e e'
              (ground (arith, here_place, v.fits (m.locals i).current_coro x e))
              (ground (arith, there, v.fits c y e')))
            (returns (
              (_, yield-IsPlaced m.threads main m place v i p quiet c x y rest h e e'),
              λ c' out up'. ground arith,
            ))
    ]

    pub die_lem :
        (m.locals i).event_loop_coro ≢ (m.locals i).current_coro
        → Returns
            (λ _ w. Keeps main m w (λ c. c == (m.locals i).current_coro) (leave m i w none))
            (sched_coro_die (view m i))
    die_lem awake = elim (cons-cases (m.locals i).run_list) [
      | inl empty ↦ absurd (ground (arith, v.loop i p))
      | inr (c, rest, h) ↦
          let there : place c ≡ queued i =
            queued_on-place i (place c) (ground (arith, v.in_queue i p c, h)) in
          let (x, e) = record_of (m.locals i).current_coro (λ h. ground (arith, here_place)) in
          let (y, e') = record_of c (λ h. ground (arith, there)) in
          rw
            (die_run (view m i) (m.locals i).current_coro c x y rest (ground (arith, v.lock i p))
              refl h (ground (arith, here_place, there)) e e'
              (ground (arith, here_place, v.fits (m.locals i).current_coro x e))
              (ground (arith, there, v.fits c y e')))
            (returns (
              (_, die-IsPlaced m.threads main m place v i p quiet c x y rest h e e' awake),
              λ c' out up'. ground arith,
            ))
    ]

  pub commit_lem :
      (a : ℕ)
      → m.pending i ≡ some a
      → Returns
          (λ _ w. Keeps main m w (λ c. false) (leave m i w none))
          (suspend_commit a (m.locals i).current_coro (view m i))
  commit_lem a busy =
      let there : place a ≡ parked i =
        parked_on-place i (place a) (ground (arith, v.in_park i p a)) in
      let next_there : place (m.locals i).current_coro ≡ running i =
        runs_on-place i (place (m.locals i).current_coro)
          (ground (arith, v.in_turn i p (m.locals i).current_coro)) in
      let (x, e) = record_of a (λ h. ground (arith, there)) in
      let (y, e') = record_of (m.locals i).current_coro (λ h. ground (arith, next_there)) in
      let lock : (m.locals i).preempt_lock ≡ true = ground (arith, v.lock i p) in
      elim (Bool-cases (is_blocking x.state)) [
        | inl down ↦
            let st = blocking-state x.state down in
            rw
              (commit_sleeps (view m i) a x y lock e e' (ground (arith, there, next_there)) st
                (v.next i p y (ground arith) e'))
              (returns (
                (_, sleep-IsPlaced m.threads main m place v i a p busy x y e e' st),
                λ c' out up'. ground arith,
              ))
        | inr up ↦
            rw
              (commit_stays (view m i) a x y lock e e' up
                (ground (arith, next_there, v.fits (m.locals i).current_coro y e')))
              (returns (
                (_, stay-IsPlaced m.threads main m place v i a p busy x y e e'),
                λ c' out up'. ground arith,
              ))
      ]
