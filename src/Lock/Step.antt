-- ===== src/Lock/Step.antt =====
-- A section under a mutex is one step for its thread.
use shproject.Prelude.{ℕ, ◌≡◌, refl, ap, Bool, ◌==◌}
use shproject.Prelude.Outcome.{
  Outcome, Prog, ok, fault, abort, out_of_fuel, and_then, assert, Returns-inv,
}
use shproject.Heap.{heap_push}
use shproject.Timer.{Timespec}
use shproject.Lock.{Pthread, IsPthread, lock_lem, unlock_lem}
use shproject.Sched.State.{World, Control}
use shproject.Sched.Core.{sched_prepare_to_suspend, sched_suspend}
use shproject.Sched.Wait.{on_timers, sched_wait}
use shproject.Sched.Invariant.{current}
use shproject.Lock.Section.{Locked, put_global, glock, gunlock, sched_wait_locked}

-- A run that returned, cut after its first call.
and_then-inv :
    {S A B : Type 0} (o : Outcome S A) (k : A → Prog S B) (b : B) (g : S)
    → and_then o k ≡ ok b g
    → (a : A) × (s : S) × (o ≡ ok a s) × (k a s ≡ ok b g)
and_then-inv (ok a s) k b g e = (a, s, refl, e)
and_then-inv fault k b g e = absurd cc
and_then-inv abort k b g e = absurd cc
and_then-inv out_of_fuel k b g e = absurd cc

wait_run :
    {M : Type 0} (p : Pthread M) (granted : Bool) (time : Timespec) (w a b c g : World)
    (m m' m'' : M) (result : ℕ) (ctl : Control)
    → sched_prepare_to_suspend w ≡ ok tt a
    → glock p (record { world = a; global = m }) ≡ ok tt (record { world = a; global = m' })
    → on_timers (heap_push granted (record { time = time; coro = current w })) a ≡ ok result b
    → gunlock p (record { world = b; global = m' }) ≡ ok tt (record { world = b; global = m'' })
    → assert (result == 0) b ≡ ok tt c
    → sched_suspend c ≡ ok ctl g
    → sched_wait_locked p granted time (record { world = w; global = m })
      ≡ ok ctl (record { world = g; global = m'' })
unfolding sched_wait_locked
wait_run p granted time w a b c g m m' m'' result ctl prepare take push give test suspend =
    rw (prepare, take, push, give, test, suspend) refl

module _ {M : Type 0} (p : Pthread M) (Free Held : M → Type 0) (laws : IsPthread p Free Held) where
  pub glock_lem :
      (s : Locked M)
      → Free s.global
      → (m : M) × (glock p s ≡ ok tt (record s { global = m })) × Held m
  unfolding glock
  glock_lem s free =
      let (_, m, run, held) = Returns-inv (lock_lem p Free Held laws s.global free) in
      (m, ap (put_global s) run, held)

  gunlock_lem :
      (s : Locked M)
      → Held s.global
      → (m : M) × (gunlock p s ≡ ok tt (record s { global = m })) × Free m
  unfolding gunlock
  gunlock_lem s held =
      let (_, m, run, free) = Returns-inv (unlock_lem p Free Held laws s.global held) in
      (m, ap (put_global s) run, free)

  -- The section of sched_wait is one step for its thread.
  sched_wait-locked :
      (granted : Bool) (time : Timespec) (w g : World) (m : M) (ctl : Control)
      → Free m
      → sched_wait granted time w ≡ ok ctl g
      → (m' : M) × (sched_wait_locked p granted time (record { world = w; global = m })
          ≡ ok ctl (record { world = g; global = m' }))
        × Free m'
  unfolding sched_wait sched_wait_locked
  sched_wait-locked granted time w g m ctl free run =
      let (_, a, prepare, run') = and_then-inv (sched_prepare_to_suspend w) _ ctl g run in
      let (result, b, push, run'') =
        and_then-inv (on_timers (heap_push granted (record { time = time; coro = current w })) a) _
          ctl g run' in
      let (_, c, test, suspend) = and_then-inv (assert (result == 0) b) _ ctl g run'' in
      let s : Locked M = record { world = w; global = m } in
      let (m', take, held) = glock_lem (record s { world = a }) free in
      let (m'', give, free') = gunlock_lem (record { world = b; global = m' }) held in
      (
        m'',
        wait_run p granted time w a b c g m m' m'' result ctl prepare take push give test suspend,
        free',
      )
