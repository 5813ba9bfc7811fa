-- ===== src/Lock/Blocked.antt =====
-- The signal of the preemption timer in a section under a mutex.
use shproject.Sched.Preempt.{callback_run}
use shproject.Prelude.{ℕ, some, ◌≡◌, ◌≢◌, refl, ap, Bool, List, ◌∷◌}
use shproject.Prelude.Outcome.{Prog, out_of_fuel, pure, ◌>>◌, Returns-inv}
use shproject.Timer.{Timespec}
use shproject.Lock.{Pthread, IsPthread, relock_lem}
use shproject.Sched.State.{Coroutine, World, Control, stays, starts, switched_back, resumed}
use shproject.Sched.Invariant.{queue, current, IsSound}
use shproject.Sched.Resched.{sched_resched_lem}
use shproject.Sched.Wake.{announced, announced-IsSound, prepare_run}
use shproject.Lock.Section.{
  Locked, put_global, glock, sched_wait_locked, sched_wait_with, elsewhere, interrupt, interrupt_at,
}
use shproject.Lock.Step.{glock_lem}

module _ {M : Type 0} (p : Pthread M) (Free Held : M → Type 0) (laws : IsPthread p Free Held) where
  glock_blocked : (s : Locked M) → Held s.global → glock p s ≡ out_of_fuel
  unfolding glock
  glock_blocked s held = ap (put_global s) (relock_lem p Free Held laws s.global held)

  wait_blocked :
      (granted : Bool) (time : Timespec) (s : Locked M) (x : Coroutine)
      → s.world.coros (current s.world) ≡ some x
      → Held s.global
      → sched_wait_locked p granted time s ≡ out_of_fuel
  unfolding sched_wait_locked
  wait_blocked granted time s x e held =
      rw (prepare_run s.world x e, glock_blocked (record s { world = announced s.world x }) held)
        refl

  elsewhere-other :
      (other : Prog (Locked M) (Unit {0})) (ctl : Control)
      → ctl ≢ stays
      → elsewhere p other ctl ≡ other
  elsewhere-other other stays ne = absurd (ne refl)
  elsewhere-other other (starts start arg) ne = refl
  elsewhere-other other (switched_back c) ne = refl
  elsewhere-other other (resumed c) ne = refl

  -- From a sound state with a coroutine queued, and with the mutex free, a signal of the timer in
  -- sched_wait, once the mutex is taken, runs the first coroutine of the queue: if that one calls
  -- sched_wait, its thread waits for ever for the mutex that it holds.
  pub sched_wait-preempted :
      (granted granted' : Bool) (time time' : Timespec) (w : World) (m : M) (c : ℕ) (rest : List ℕ)
      → Free m
      → IsSound w
      → queue w ≡ c ∷ rest
      → sched_wait_with p
          (interrupt_at p 2 (sched_wait_locked p granted' time' >> pure tt))
          granted
          time
          (record { world = w; global = m })
        ≡ out_of_fuel
  unfolding sched_wait_with interrupt
  sched_wait-preempted granted granted' time time' w m c rest free s q =
      let (x, ea, _, _) = s.running in
      let (m', take, held) =
        glock_lem p Free Held laws (record { world = announced w x; global = m }) free in
      let (ctl, g, run, both) =
        Returns-inv (sched_resched_lem (announced w x) c rest (announced-IsSound w x s ea) q) in
      let (z, ez, _, _) = both.1.sound.running in
      rw
        (
          prepare_run w x ea,
          take,
          callback_run (announced w x) s.lock,
          run,
          elsewhere-other (sched_wait_locked p granted' time' >> pure tt) ctl both.0,
          wait_blocked granted' time' (record { world = g; global = m' }) z ez held,
        )
        refl
