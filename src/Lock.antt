-- ===== src/Lock.antt =====
-- platform/lock.h on POSIX: mutexes over those of pthread, which are a parameter.
pub mod Section
pub mod Step
pub mod Blocked
mod Tests
use shproject.Prelude.{ℕ, ◌≡◌, refl, Bool, true, false, ◌||◌, arith, ◌==◌}
use shproject.Prelude.Outcome.{
  Prog, ok, out_of_fuel, pure, and_then, ◌>>=◌, ◌>>◌, assert, Returns, returns, Returns-bind,
}

-- EBUSY
abbrev pub ebusy : ℕ
ebusy = 16

-- The functions of pthread on a mutex, each with its result. A call that waits for ever is out of fuel.
pub record Pthread (M : Type 0) : Type 0 where
  pub init : Prog M ℕ
  pub lock : Prog M ℕ
  pub unlock : Prog M ℕ
  pub destroy : Prog M ℕ
  pub trylock : Prog M ℕ

-- What they promise to the one thread that uses the mutex: it waits for ever for one that it holds.
pub record IsPthread {M : Type 0} (p : Pthread M) (Free Held : M → Type 0) : Type 0 where
  pub init : (m : M) → Returns (λ r g. (r ≡ 0) × Free g) (p.init m)
  pub lock : (m : M) → Free m → Returns (λ r g. (r ≡ 0) × Held g) (p.lock m)
  pub relock : (m : M) → Held m → p.lock m ≡ out_of_fuel
  pub unlock : (m : M) → Held m → Returns (λ r g. (r ≡ 0) × Free g) (p.unlock m)
  pub destroy : (m : M) → Free m → Returns (λ r g. r ≡ 0) (p.destroy m)
  pub trylock : (m : M) → Free m → Returns (λ r g. (r ≡ 0) × Held g) (p.trylock m)
  pub busy : (m : M) → Held m → p.trylock m ≡ ok ebusy m

-- __CHECK
unfoldable pub check : {S : Type 0} → Prog S ℕ → Prog S (Unit {0})
check call = do result ← call; assert (result == 0)

module _ {M : Type 0} (p : Pthread M) where
  unfoldable pub mutex_init : Prog M (Unit {0})
  unfolding check
  mutex_init = check p.init

  unfoldable pub mutex_lock : Prog M (Unit {0})
  unfolding check
  mutex_lock = check p.lock

  unfoldable pub mutex_unlock : Prog M (Unit {0})
  unfolding check
  mutex_unlock = check p.unlock

  unfoldable pub mutex_destroy : Prog M (Unit {0})
  unfolding check
  mutex_destroy = check p.destroy

  unfoldable pub mutex_trylock : Prog M Bool
  mutex_trylock = do
    result ← p.trylock
    assert ((result == 0) || (result == ebusy))
    pure (result == 0)

module _ {M : Type 0} (p : Pthread M) (Free Held : M → Type 0) (laws : IsPthread p Free Held) where
  pub lock_lem : (m : M) → Free m → Returns (λ _. Held) (mutex_lock p m)
  unfolding mutex_lock
  lock_lem m free = Returns-bind (laws.lock m free) λ r g (is, held). rw is (returns held)

  pub unlock_lem : (m : M) → Held m → Returns (λ _. Free) (mutex_unlock p m)
  unfolding mutex_unlock
  unlock_lem m held = Returns-bind (laws.unlock m held) λ r g (is, free). rw is (returns free)

  pub relock_lem : (m : M) → Held m → mutex_lock p m ≡ out_of_fuel
  unfolding mutex_lock
  relock_lem m held = rw (laws.relock m held) refl

  init_lem : (m : M) → Returns (λ _. Free) (mutex_init p m)
  unfolding mutex_init
  init_lem m = Returns-bind (laws.init m) λ r g (is, free). rw is (returns free)

  destroy_lem : (m : M) → Free m → Returns (λ _ _. Unit {0}) (mutex_destroy p m)
  unfolding mutex_destroy
  destroy_lem m free = Returns-bind (laws.destroy m free) λ r g is. rw is (returns tt)

  trylock_lem : (m : M) → Free m → Returns (λ r g. (r ≡ true) × Held g) (mutex_trylock p m)
  unfolding mutex_trylock
  trylock_lem m free =
      Returns-bind (laws.trylock m free) λ r g (is, held). rw is (returns (refl, held))

  busy_lem : (m : M) → Held m → mutex_trylock p m ≡ ok false m
  unfolding mutex_trylock
  busy_lem m held = rw (laws.busy m held) refl

  -- A mutex from mutex_init to mutex_destroy: mutex_trylock takes it when no section holds it, and says
  -- so, and says that it did not when one does. No call fails its test.
  mutex_lifetime :
      (m : M)
      → Returns
          (λ (r : Bool × Bool) g. (r.0 ≡ true) × (r.1 ≡ false))
          ((do
            mutex_init p
            mutex_lock p
            mutex_unlock p
            first ← mutex_trylock p
            second ← mutex_trylock p
            mutex_unlock p
            mutex_destroy p
            pure (first, second))
            m)
  mutex_lifetime m = Returns-bind (init_lem m) λ _ a free.
      Returns-bind (lock_lem a free) λ _ b held. Returns-bind (unlock_lem b held) λ _ c free'.
        Returns-bind (trylock_lem c free') λ first d (is, held'). rw (busy_lem d held') (
          Returns-bind (unlock_lem d held')
            λ _ e free''. Returns-bind (destroy_lem e free'') λ _ f _. returns (is, refl))
