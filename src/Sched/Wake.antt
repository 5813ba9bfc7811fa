-- ===== src/Sched/Wake.antt =====
-- A wake-up that comes while a coroutine goes to sleep is not lost.
use shproject.Prelude.{ℕ, ◌≡◌, ◌≢◌, refl, ◌∙◌, some, List, ◌∷◌, arith}
use shproject.Prelude.Outcome.{ok, ◌>>◌, Returns, Returns-bind, Returns-mono}
use shproject.Heap.{update}
use shproject.Sched.State.{blocking, Coroutine, World, stays}
use shproject.Sched.Core.{sched_prepare_to_suspend, sched_schedule, sched_suspend}
use shproject.Sched.Invariant.{queue, current, IsSound, running-record}
use shproject.Sched.Schedule.{sched_schedule-awake}
use shproject.Sched.Suspend.{Stayed, Slept, sched_suspend-stays, sched_suspend-sleeps}

abbrev pub announced : World → Coroutine → World
announced w x = record w {
  coros = update w.coros (current w) (some (record x { state = blocking }));
}

pub announced-IsSound :
    (w : World) (x : Coroutine) → IsSound w → w.coros (current w) ≡ some x → IsSound (announced w x)
announced-IsSound w x s e = record {
  lock = s.lock;
  distinct = s.distinct;
  nonnull = s.nonnull;
  ready = λ t i.
      let (y, found, linked, up, saved) = s.ready t i in
      (y, ground (arith, (running-record w x s e).0), linked, up, saved);
  running =
      (record x { state = blocking }, ground arith, (running-record w x s e).0, λ h. absurd cc);
  looping = s.looping;
}

pub prepare_run :
    (w : World) (x : Coroutine)
    → w.coros (current w) ≡ some x
    → sched_prepare_to_suspend w ≡ ok tt (announced w x)
unfolding sched_prepare_to_suspend
prepare_run w x e = ground arith

-- A coroutine that announces its suspension and then suspends sleeps, and the first coroutine of
-- the queue runs.
pub prepare-suspend-sleeps :
    (w : World) (c : ℕ) (rest : List ℕ)
    → IsSound w
    → queue w ≡ c ∷ rest
    → w.lsched.event_loop_coro ≢ current w
    → Returns
        (λ ctl g. (ctl ≢ stays) × Slept w c rest g)
        ((sched_prepare_to_suspend >> sched_suspend) w)
prepare-suspend-sleeps w c rest s q off =
    let (x, ea, free, up) = s.running in
    rw (prepare_run w x ea) (
      Returns-mono
        (sched_suspend-sleeps (announced w x) c rest (announced-IsSound w x s ea) q
          (record x { state = blocking }) (ground arith) refl off)
        λ ctl g p. (
          p.0,
          record {
            sound = p.1.sound;
            next = p.1.next;
            order = p.1.order;
            timers = p.1.timers;
            poll = p.1.poll;
            sleeper = p.1.sleeper;
          },
        ))

-- A coroutine that announces its suspension, and is awakened before it suspends, does not sleep.
pub prepare-schedule-suspend-stays :
    (w : World) (c : ℕ) (rest : List ℕ)
    → IsSound w
    → queue w ≡ c ∷ rest
    → Returns
        (λ ctl g. (ctl ≡ stays) × Stayed w c rest g)
        ((sched_prepare_to_suspend >> sched_schedule (current w) >> sched_suspend) w)
prepare-schedule-suspend-stays w c rest s q =
    let (x, ea, free, up) = s.running in
    rw (prepare_run w x ea) (
      Returns-bind
        (sched_schedule-awake (announced w x) (current w) (record x { state = blocking })
          (announced-IsSound w x s ea) (ground arith) refl)
        λ _ g p.
          let (_, y, _, found, state, _) = p.awake in
          Returns-mono
            (sched_suspend-stays g c rest p.sound (p.order ∙ q) y (rw p.same found) (rw state refl))
            λ ctl g' r. (
              r.0,
              record {
                sound = r.1.sound;
                same = r.1.same ∙ p.same;
                order = r.1.order;
                errno = r.1.errno ∙ p.errno;
              },
            ))
