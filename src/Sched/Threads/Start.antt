-- ===== src/Sched/Threads/Start.antt =====
-- The first thread, from sched_init, and each further one, from sched_new_coroutine.
use shproject.Prelude.{
  ℕ, ◌+◌, ◌≡◌, refl, ◌<◌, true, false, none, ◌==◌, if◌then◌else◌, arith, ◌⊎◌, inl, inr,
}
use native.Mathlib.Decide.{dec_lt}
use shproject.Prelude.Outcome.{Returns, returns}
use shproject.Heap.{update}
use shproject.Sched.State.{World}
use shproject.Sched.Init.{no_local, sched_init}
use shproject.Sched.Boot.{booted, init_run, made}
use shproject.Sched.Spawn.{spawned}
use shproject.Sched.Threads.{Machine, view, joined}
use shproject.Sched.Threads.Places.{
  Place, asleep, queued, running, parked, in_range, IsPlaced, IsConsistent,
}

-- One thread.
abbrev pub alone : World → Machine
alone w = record {
  threads = 1;
  shared = w;
  locals = λ i. if i == 0 then w.lsched else no_local;
  pending = λ _. none;
}

abbrev first_place : ℕ → ℕ → ℕ → Place
first_place main loop c = if c == main then running 0 else if c == loop then queued 0 else asleep

pub booted-IsConsistent :
    (cpus main loop f : ℕ)
    → (main == 0) ≡ false
    → (loop == 0) ≡ false
    → (main == loop) ≡ false
    → IsConsistent loop (alone (booted cpus main loop f))
booted-IsConsistent cpus main loop f nz nz' apart = (
  first_place main loop,
  record {
    in_queue = λ i q c. ground arith;
    in_turn = λ i q c. ground arith;
    in_park = λ i q c. ground arith;
    range = λ c. ground arith;
    distinct = λ i q. ground arith;
    lock = λ i q. ground arith;
    loop = λ i q. ground arith;
    fits = λ c x e. ground arith;
    live = λ c e. ground arith;
    next = λ i q y r e. absurd (ground arith);
    null = ground arith;
  },
)

-- When sched_init is over, the main thread and its event loop are consistent.
pub sched_init-IsConsistent :
    (cpus main loop f : ℕ)
    → (main == 0) ≡ false
    → (loop == 0) ≡ false
    → (main == loop) ≡ false
    → Returns (λ _ w. IsConsistent loop (alone w)) (sched_init cpus true 0 0 main loop f)
sched_init-IsConsistent cpus main loop f nz nz' apart =
    rw (init_run cpus main loop f nz nz' apart)
      (returns (booted-IsConsistent cpus main loop f nz nz' apart))

old-or-new : (j n : ℕ) → j < n + 1 → (j < n) ⊎ (j ≡ n)
old-or-new j n q = elim (dec_lt j n) [ yes below ↦ inl below | no last ↦ inr (omega arith) ]

wider : (n : ℕ) (l : Place) → in_range n l ≡ true → in_range (n + 1) l ≡ true
wider n asleep h = refl
wider n (queued i) h = ground arith
wider n (running i) h = ground arith
wider n (parked i) h = ground arith

module _ (main : ℕ) (m : Machine) (place : ℕ → Place) (v : IsPlaced m.threads main m place) (i : ℕ)
    (p : i < m.threads) (quiet : m.pending i ≡ none) where
  pub spawn-IsPlaced :
      (fresh thread start arg : ℕ)
      → m.shared.coros fresh ≡ none
      → m.shared.coros thread ≡ none
      → (fresh == 0) ≡ false
      → (thread == 0) ≡ false
      → (thread == fresh) ≡ false
      → IsPlaced
          (m.threads + 1)
          main
          (joined m i fresh thread (spawned (view m i) fresh thread start arg))
          (update (update place thread (running m.threads)) fresh (queued m.threads))
  spawn-IsPlaced fresh thread start arg e e' nz nz' apart =
      let there : place fresh ≡ asleep = v.live fresh e in
      let there' : place thread ≡ asleep = v.live thread e' in
      record {
        in_queue = λ j q c. elim (old-or-new j m.threads q) [
          | inl below ↦ ground (arith, v.in_queue j below c, v.in_queue i p c, there, there')
          | inr same ↦ ground (arith, v.range c, there, there')
        ];
        in_turn = λ j q c. elim (old-or-new j m.threads q) [
          | inl below ↦ ground (arith, v.in_turn j below c, v.in_turn i p c, there, there')
          | inr same ↦ ground (arith, v.range c, there, there')
        ];
        in_park = λ j q c. elim (old-or-new j m.threads q) [
          | inl below ↦ ground (arith, v.in_park j below c, v.in_park i p c, there, there')
          | inr same ↦ ground (arith, v.range c, there, there')
        ];
        range = λ c. ground (arith, wider m.threads (place c), v.range c);
        distinct = λ j q. elim (old-or-new j m.threads q) [
          | inl below ↦ ground (arith, v.distinct j below, v.distinct i p)
          | inr same ↦ ground (arith, there)
        ];
        lock = λ j q. elim (old-or-new j m.threads q) [
          | inl below ↦ ground (arith, v.lock j below, v.lock i p)
          | inr same ↦ ground (arith, there)
        ];
        loop = λ j q. elim (old-or-new j m.threads q) [
          | inl below ↦ ground (arith, v.loop j below, v.loop i p)
          | inr same ↦ ground (arith, there)
        ];
        fits = λ c x f. ground (arith, v.fits c x, there, there');
        live = λ c f. ground (arith, v.live c);
        next = λ j q y r f. elim (old-or-new j m.threads q) [
          | inl below ↦ ground (
            arith,
            v.next j below y,
            v.in_turn j below fresh,
            v.in_turn j below thread,
            there,
            there',
          )
          | inr same ↦ ground (arith, there)
        ];
        null = ground (arith, v.null);
      }

  -- The threads with a coroutine that nothing runs yet.
  abbrev pub with_new : ℕ → ℕ → ℕ → Machine
  with_new fresh start arg = record m { shared = made m.shared fresh start arg }

  pub new-IsPlaced :
      (fresh start arg : ℕ)
      → m.shared.coros fresh ≡ none
      → (fresh == 0) ≡ false
      → IsPlaced m.threads main (with_new fresh start arg) place
  new-IsPlaced fresh start arg e nz = record {
    in_queue = v.in_queue;
    in_turn = v.in_turn;
    in_park = v.in_park;
    range = v.range;
    distinct = v.distinct;
    lock = v.lock;
    loop = v.loop;
    fits = λ c x f. ground (arith, v.fits c x, v.live fresh);
    live = λ c f. ground (arith, v.live c);
    next = λ j q y r f. ground (arith, v.next j q y, v.in_turn j q fresh, v.live fresh);
    null = v.null;
  }
