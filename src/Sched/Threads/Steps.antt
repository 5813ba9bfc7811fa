-- ===== src/Sched/Threads/Steps.antt =====
-- What the calls of a thread come to, in the cases of its coroutines.
use shproject.Prelude.{
  ℕ, ◌≡◌, ◌≢◌, refl, subst, true, false, none, some, List, [], ◌∷◌, ◌++◌, ◌==◌, leb, arith, inl,
  inr, ◌⊎◌,
}
use shproject.Prelude.Outcome.{Outcome, ok, Returns, returns}
use shproject.Heap.{update}
use shproject.Sched.State.{
  State, runnable, blocking, blocked, unset, nothing, Coroutine, World, stays,
}
use shproject.Sched.Core.{is_blocked, is_blocking, sched_resched, suspend_commit, sched_schedule}
use shproject.Sched.Invariant.{entry}
use shproject.Sched.Schedule.{awakened}
use shproject.Sched.Init.{new_coroutine, sched_new_coroutine}
use shproject.Sched.Boot.{made}

Returns-ok : {S A : Type 0} {P : A → S → Type 0} {a : A} {s : S} → Returns P (ok a s) → P a s
Returns-ok (returns p) = p

-- A run that returns, and whose result was given.
pub Returns-at :
    {S A : Type 0} {P : A → S → Type 0} {r : Outcome S A} {a : A} {s : S}
    → Returns P r
    → r ≡ ok a s
    → P a s
Returns-at {P = P} ret e = Returns-ok (subst (λ o. Returns P o) e ret)

pub create_run :
    (w : World) (fresh thread start arg : ℕ)
    → leb w.local_size w.local_count ≡ true
    → (fresh == 0) ≡ false
    → sched_new_coroutine fresh thread start arg w
      ≡ ok fresh (awakened (made w fresh start arg) fresh (new_coroutine start arg))
unfolding sched_new_coroutine sched_schedule
create_run w fresh thread start arg full nz = ground arith

pub cons-cases : (xs : List ℕ) → (xs ≡ []) ⊎ ((c : ℕ) × (rest : List ℕ) × (xs ≡ c ∷ rest))
cons-cases [] = inl refl
cons-cases (c ∷ rest) = inr (c, rest, refl)

pub commit_sleeps :
    (w : World) (a : ℕ) (x y : Coroutine)
    → w.lsched.preempt_lock ≡ true
    → w.coros a ≡ some x
    → w.coros w.lsched.current_coro ≡ some y
    → (a == w.lsched.current_coro) ≡ false
    → x.state ≡ blocking
    → y.context ≢ nothing
    → suspend_commit a w.lsched.current_coro w
      ≡ ok (entry w.lsched.current_coro y y.context) (record w {
        coros = update w.coros a (some (record x { state = blocked }));
        lsched = record w.lsched { preempt_lock = false };
      })
unfolding suspend_commit entry
commit_sleeps w a x y lock e e' apart st saved = ground arith

pub commit_stays :
    (w : World) (a : ℕ) (x y : Coroutine)
    → w.lsched.preempt_lock ≡ true
    → w.coros a ≡ some x
    → w.coros w.lsched.current_coro ≡ some y
    → is_blocking x.state ≡ false
    → y.linked ≡ false
    → suspend_commit a w.lsched.current_coro w
      ≡ ok stays (record w {
        coros = update w.coros w.lsched.current_coro (some (record y { linked = true }));
        lsched = record w.lsched {
          run_list = w.lsched.run_list ++ w.lsched.current_coro ∷ [];
          current_coro = a;
          errno = x.private_errno;
          preempt_lock = false;
        };
      })
unfolding suspend_commit
commit_stays w a x y lock e e' st free = ground arith

pub resched_empty : (w : World) → w.lsched.run_list ≡ [] → sched_resched w ≡ ok stays w
unfolding sched_resched
resched_empty w e = ground arith

pub blocking-state : (s : State) → is_blocking s ≡ true → s ≡ blocking
blocking-state runnable h = cc
blocking-state blocking h = refl
blocking-state blocked h = cc
blocking-state unset h = cc

pub blocked-state : (s : State) → is_blocked s ≡ true → s ≡ blocked
blocked-state runnable h = cc
blocked-state blocking h = cc
blocked-state blocked h = refl
blocked-state unset h = cc

pub schedule_fault :
    {g : World} (w : World) (c : ℕ) → w.coros c ≡ none → sched_schedule c w ≢ ok tt g
unfolding sched_schedule
schedule_fault w c e h = ground arith
