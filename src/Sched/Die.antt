-- ===== src/Sched/Die.antt =====
-- sched_coro_die: the end of a coroutine.
use shproject.Prelude.{
  ℕ, ◌≡◌, ◌≢◌, refl, false, none, some, List, ◌∷◌, arith, ◌==◌, IsDistinct, not-mem_of_mem,
}
use shproject.Prelude.Outcome.{ok, Returns, returns}
use shproject.Heap.{update}
use shproject.Sched.State.{nothing, Coroutine, World, stays}
use shproject.Sched.Core.{sched_coro_die}
use shproject.Sched.Invariant.{entry, entry-ne-stays, queue, current, IsSound}

-- The world after the coroutine `a` died and `c` followed.
abbrev pub buried : World → ℕ → ℕ → Coroutine → List ℕ → World
buried w a c y rest = record w {
  coros = update (update w.coros a none) c (some (record y { linked = false }));
  lsched = record w.lsched { run_list = rest; current_coro = c };
}

pub die_run :
    (w : World) (a c : ℕ) (x y : Coroutine) (rest : List ℕ)
    → w.lsched.preempt_lock ≡ false
    → w.lsched.current_coro ≡ a
    → w.lsched.run_list ≡ c ∷ rest
    → (c == a) ≡ false
    → w.coros a ≡ some x
    → w.coros c ≡ some y
    → x.linked ≡ false
    → y.context ≢ nothing
    → sched_coro_die w ≡ ok (entry c y y.context) (buried w a c y rest)
unfolding sched_coro_die entry
die_run w a c x y rest lock cur q ne ea ec free saved = ground arith

-- What sched_coro_die promises: the caller is freed, `c` runs and the queue is `rest`. The errno is
-- the one that the dead coroutine had.
pub record Died (w : World) (c : ℕ) (rest : List ℕ) (g : World) : Type 0 where
  pub sound : IsSound g
  pub freed : g.coros (current w) ≡ none
  pub next : current g ≡ c
  pub order : queue g ≡ rest
  pub errno : g.lsched.errno ≡ w.lsched.errno

-- sched_coro_die frees the running coroutine and runs the first of the queue, if the event loop is
-- another one. That one goes on with the dead coroutine's errno, not with its own.
pub sched_coro_die_lem :
    (w : World) (c : ℕ) (rest : List ℕ)
    → IsSound w
    → queue w ≡ c ∷ rest
    → w.lsched.event_loop_coro ≢ current w
    → Returns (λ ctl g. (ctl ≢ stays) × Died w c rest g) (sched_coro_die w)
sched_coro_die_lem w c rest s q off =
    let (x, ea, free, awake) = s.running in
    let (y, ec, linked, up, saved) = s.ready c (ground (arith, q)) in
    let ne : (c == current w) ≡ false = ground (arith, q, s.distinct) in
    let d : IsDistinct (current w ∷ c ∷ rest) = rw q at s.distinct in
    rw (die_run w (current w) c x y rest s.lock refl q ne ea ec free saved) (
      returns (
        entry-ne-stays c y y.context saved,
        record {
          sound = record {
            lock = s.lock;
            distinct = d.1;
            nonnull = ground (arith, q, s.nonnull);
            ready = λ t i.
                let (z, found, linked', up', saved') = s.ready t (rw q (ground (arith, i))) in
                (
                  z,
                  ground (arith, d, not-mem_of_mem c t rest, not-mem_of_mem (current w) t rest),
                  linked',
                  up',
                  saved',
                );
            running = (record y { linked = false }, ground arith, refl, up);
            looping = ground (arith, q, s.looping);
          };
          freed = ground arith;
          next = refl;
          order = refl;
          errno = refl;
        },
      ))
