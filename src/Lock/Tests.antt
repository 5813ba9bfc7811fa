-- ===== src/Lock/Tests.antt =====
-- A mutex that is a Boolean: whether it is held.
use shproject.Prelude.{◌≡◌, refl, Bool, true, false, [], if◌then◌else◌}
use shproject.Prelude.Outcome.{ok, out_of_fuel, pure, returns, ◌>>◌}
use shproject.Lock.{Pthread, IsPthread, ebusy}
use shproject.Lock.Section.{sched_wait_locked, sched_wait_with, interrupt_at}
use shproject.Lock.Blocked.{sched_wait-preempted}
use shproject.Sched.Examples.{three, three-IsSound, noon}

abbrev flag : Pthread Bool
flag = record {
  init = λ m. ok 0 false;
  lock = λ m. if m then out_of_fuel else ok 0 true;
  unlock = λ m. ok 0 false;
  destroy = λ m. ok 0 m;
  trylock = λ m. if m then ok ebusy m else ok 0 true;
}

abbrev IsFree : Bool → Type 0
IsFree m = m ≡ false

abbrev IsHeld : Bool → Type 0
IsHeld m = m ≡ true

flag-IsPthread : IsPthread flag IsFree IsHeld
flag-IsPthread = record {
  init = λ m. returns (refl, refl);
  lock = λ m e. rw e (returns (refl, refl));
  relock = λ m e. rw e refl;
  unlock = λ m e. returns (refl, refl);
  destroy = λ m e. returns refl;
  trylock = λ m e. rw e (returns (refl, refl));
  busy = λ m e. rw e refl;
}

sched_wait-preempted_example :
    sched_wait_with flag
      (interrupt_at flag 2 (sched_wait_locked flag true noon >> pure tt))
      true
      noon
      (record { world = three; global = false })
    ≡ out_of_fuel
sched_wait-preempted_example =
    sched_wait-preempted flag IsFree IsHeld flag-IsPthread true true noon noon three false 2 [] refl
      three-IsSound refl
