-- ===== src/Sched/Threads/Arrivals.antt =====
-- What a thread keeps that creates or awakens a coroutine.
use shproject.Prelude.{
  ℕ, ◌≡◌, ◌≢◌, refl, ◌<◌, true, false, none, some, ◌==◌, leb, arith, Bool-cases, inl, inr,
}
use shproject.Prelude.Outcome.{Returns, returns}
use shproject.Sched.State.{Coroutine}
use shproject.Sched.Core.{is_blocked, sched_schedule}
use shproject.Sched.Threads.{Machine, view, leave, joined}
use shproject.Sched.Threads.Places.{Place, asleep, IsPlaced}
use shproject.Sched.Threads.Wakes.{blocked-place, awaken-IsPlaced, mark-IsPlaced}
use shproject.Sched.Schedule.{awaken_run, mark_run, IsAsleep}
use shproject.Sched.Init.{new_coroutine, sched_new_coroutine}
use shproject.Sched.Spawn.{spawn_run}
use shproject.Sched.Threads.Start.{spawn-IsPlaced, new-IsPlaced, with_new}
use shproject.Sched.Threads.Steps.{create_run, blocked-state}
use shproject.Sched.Threads.Calls.{Keeps}

module _ (main : ℕ) (m : Machine) (place : ℕ → Place) (v : IsPlaced m.threads main m place) (i : ℕ)
    (p : i < m.threads) (quiet : m.pending i ≡ none) where
  pub create_lem :
      (fresh thread start arg : ℕ)
      → leb m.shared.local_size m.shared.local_count ≡ true
      → m.shared.coros fresh ≡ none
      → (fresh == 0) ≡ false
      → fresh ≢ main
      → Returns
          (λ _ w. Keeps main m w (λ c. false) (leave m i w none))
          (sched_new_coroutine fresh thread start arg (view m i))
  create_lem fresh thread start arg full e nz off =
      let w' = new-IsPlaced main m place v i p quiet fresh start arg e nz in
      let asleep' : place fresh ≡ asleep = v.live fresh e in
      rw (create_run (view m i) fresh thread start arg full nz) (
        returns (
          (
            _,
            awaken-IsPlaced m.threads main (with_new main m place v i p quiet fresh start arg) place
                w' i p quiet fresh (new_coroutine start arg) (ground arith) refl off nz,
          ),
          λ c' out up'. ground arith,
        ))

  pub spawn_lem :
      (fresh thread start arg : ℕ)
      → leb m.shared.local_size m.shared.local_count ≡ false
      → m.shared.coros fresh ≡ none
      → m.shared.coros thread ≡ none
      → (fresh == 0) ≡ false
      → (thread == 0) ≡ false
      → (thread == fresh) ≡ false
      → Returns
          (λ _ w. Keeps main m w (λ c. false) (joined m i fresh thread w))
          (sched_new_coroutine fresh thread start arg (view m i))
  spawn_lem fresh thread start arg room e e' nz nz' apart =
      rw (spawn_run (view m i) fresh thread start arg room nz nz' apart) (
        returns (
          (_, spawn-IsPlaced main m place v i p quiet fresh thread start arg e e' nz nz' apart),
          λ c' out up'. ground arith,
        ))

  pub wake_lem :
      (c : ℕ) (x : Coroutine)
      → m.shared.coros c ≡ some x
      → c ≢ main
      → (c == 0) ≡ false
      → Returns
          (λ _ w. Keeps main m w (λ c. false) (leave m i w none))
          (sched_schedule c (view m i))
  wake_lem c x e off nz = elim (Bool-cases (is_blocked x.state)) [
    | inl down ↦
        let st = blocked-state x.state down in
        let there = blocked-place main c (place c) x (v.fits c x e) st off in
        let sleeps : IsAsleep (view m i) c x = record {
          found = e;
          state = st;
          free = ground (arith, there, v.fits c x e);
          saved = λ h. ground (arith, there, v.fits c x e);
          nonnull = nz;
          idle = ground (arith, there, v.in_turn i p c);
        } in
        rw (awaken_run (view m i) c x sleeps) (
          returns (
            (_, awaken-IsPlaced m.threads main m place v i p quiet c x e st off nz),
            λ c' out up'. ground arith,
          ))
    | inr up ↦ rw (mark_run (view m i) c x e up) (
        returns (
          (place, mark-IsPlaced m.threads main m place v i p quiet c x e up),
          λ c' out up'. ground arith,
        ))
  ]
