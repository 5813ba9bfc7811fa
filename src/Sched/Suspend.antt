-- ===== src/Sched/Suspend.antt =====
-- sched_suspend: a coroutine goes to sleep, unless it was awakened before.
use shproject.Prelude.{
  ℕ, ◌≡◌, ◌≢◌, refl, ◌∙◌, true, false, some, List, [], ◌∷◌, ◌++◌, arith, ◌==◌, ◌∈◌, ◌∉◌, IsDistinct,
  has-append, IsDistinct-snoc, Bool-cases, inl, inr, not-mem_of_mem,
}
use shproject.Prelude.Outcome.{ok, Returns, returns}
use shproject.Heap.{update}
use shproject.Sched.State.{blocking, blocked, nothing, at_suspend, Coroutine, World, stays}
use shproject.Sched.Core.{is_blocking, sched_suspend, suspend_begin, suspend_commit}
use shproject.Sched.Invariant.{
  entry, entry-ne-stays, running-record, queue, current, MayRun, IsReady, IsSound,
}

-- The record of the suspending coroutine when its state is compared, and the world then: `c` is
-- out of the queue and current already.
abbrev pub parked : World → Coroutine → Coroutine
parked w x = record x { context = at_suspend; private_errno = w.lsched.errno }

abbrev pub begun : World → ℕ → Coroutine → ℕ → Coroutine → List ℕ → World
begun w a x c y rest = record w {
  coros =
      update
        (update (update w.coros a (some (record x { context = at_suspend }))) c
          (some (record y { linked = false })))
        a (some (parked w x));
  lsched = record w.lsched {
    preempt_lock = true;
    run_list = rest;
    current_coro = c;
    errno = y.private_errno;
  };
}

module _ (w : World) (a c : ℕ) (x y : Coroutine) (rest : List ℕ)
    (lock : w.lsched.preempt_lock ≡ false) (cur : w.lsched.current_coro ≡ a)
    (q : w.lsched.run_list ≡ c ∷ rest) (ne : (c == a) ≡ false) (ea : w.coros a ≡ some x)
    (ec : w.coros c ≡ some y) where
  pub begin_run : suspend_begin w ≡ ok c (begun w a x c y rest)
  unfolding suspend_begin
  begin_run = ground arith

  abbrev pub asleep : World
  asleep = record (begun w a x c y rest) {
    coros = update (begun w a x c y rest).coros a (some (record (parked w x) { state = blocked }));
    lsched = record w.lsched { run_list = rest; current_coro = c; errno = y.private_errno };
  }

  pub sleep_run :
      x.state ≡ blocking
      → y.context ≢ nothing
      → suspend_commit a c (begun w a x c y rest) ≡ ok (entry c y y.context) asleep
  unfolding suspend_commit entry
  sleep_run e saved = ground arith

  abbrev pub awake : World
  awake = record (begun w a x c y rest) {
    coros = update (begun w a x c y rest).coros c (some (record y { linked = true }));
    lsched = record w.lsched { run_list = rest ++ c ∷ [] };
  }

  pub wake_run :
      is_blocking x.state ≡ false → suspend_commit a c (begun w a x c y rest) ≡ ok stays awake
  unfolding suspend_commit
  wake_run e = ground arith

  asleep-IsSound :
      IsDistinct (a ∷ c ∷ rest)
      → 0 ∉ (a ∷ c ∷ rest)
      → ((t : ℕ) → t ∈ (c ∷ rest) → IsReady w t)
      → w.lsched.event_loop_coro ∈ (c ∷ rest)
      → MayRun w c y.state
      → IsSound asleep
  asleep-IsSound d nz ready loop up = record {
    lock = lock;
    distinct = d.1;
    nonnull = ground arith;
    ready = λ t i.
        let (z, found, linked, up', saved) = ready t (ground arith) in
        (
          z,
          ground (arith, d, not-mem_of_mem c t rest, not-mem_of_mem a t rest),
          linked,
          up',
          saved,
        );
    running = (record y { linked = false }, ground (arith, d), refl, up);
    looping = loop;
  }

  awake-IsSound :
      IsDistinct (a ∷ c ∷ rest)
      → 0 ∉ (a ∷ c ∷ rest)
      → ((t : ℕ) → t ∈ (c ∷ rest) → IsReady w t)
      → w.lsched.event_loop_coro ∈ (a ∷ c ∷ rest)
      → x.linked ≡ false
      → MayRun w a x.state
      → MayRun w c y.state
      → y.context ≢ nothing
      → IsSound awake
  awake-IsSound d nz ready loop free up up' saved = record {
    lock = lock;
    distinct = (ground (arith, d, has-append a rest (c ∷ [])), IsDistinct-snoc c rest d.1.0 d.1.1);
    nonnull = ground (arith, has-append 0 rest (c ∷ []));
    ready = λ t i. elim (Bool-cases (t == c)) [
      | inl self ↦
          (record y { linked = true }, ground arith, refl, λ h. ground (arith, up' h), saved)
      | inr other ↦
          let (z, found, linked, up'', saved') =
            ready t (ground (arith, has-append t rest (c ∷ []))) in
          (
            z,
            ground (arith, d, has-append t rest (c ∷ []), not-mem_of_mem a t rest),
            linked,
            up'',
            saved',
          )
    ];
    running = (parked w x, ground arith, free, λ h. cur ∙ up h);
    looping = ground (arith, has-append w.lsched.event_loop_coro rest (c ∷ []));
  }

-- What sched_suspend promises when the caller sleeps: `c`, the first of the queue, runs; the caller
-- is in no list, blocked, with its context and its errno saved.
pub record Slept (w : World) (c : ℕ) (rest : List ℕ) (g : World) : Type 0 where
  pub sound : IsSound g
  pub next : current g ≡ c
  pub order : queue g ≡ rest
  pub timers : g.timer_heap ≡ w.timer_heap
  pub poll :
      (g.waits ≡ w.waits)
      × (g.epoll ≡ w.epoll)
      × (g.lsched.event_loop_coro ≡ w.lsched.event_loop_coro)
  pub sleeper :
      (x : Coroutine) × (g.coros (current w) ≡ some x)
      × (x.state ≡ blocked)
      × (x.linked ≡ false)
      × (x.context ≡ at_suspend)
      × (x.private_errno ≡ w.lsched.errno)

-- What it promises when the caller was awakened before: it runs on, and the coroutine that had been
-- taken from the queue is the last of it.
pub record Stayed (w : World) (c : ℕ) (rest : List ℕ) (g : World) : Type 0 where
  pub sound : IsSound g
  pub same : current g ≡ current w
  pub order : queue g ≡ rest ++ c ∷ []
  pub errno : g.lsched.errno ≡ w.lsched.errno

module _ (w : World) (c : ℕ) (rest : List ℕ) (s : IsSound w) (q : queue w ≡ c ∷ rest) where
  ne : (c == current w) ≡ false
  ne = ground (arith, q, s.distinct)

  -- A caller that announced its suspension, and was not awakened since, sleeps, and the first
  -- coroutine of the queue runs.
  pub sched_suspend-sleeps :
      (x : Coroutine)
      → w.coros (current w) ≡ some x
      → x.state ≡ blocking
      → w.lsched.event_loop_coro ≢ current w
      → Returns (λ ctl g. (ctl ≢ stays) × Slept w c rest g) (sched_suspend w)
  unfolding sched_suspend
  sched_suspend-sleeps x ea e off =
      let (y, ec, linked, up, saved) = s.ready c (ground (arith, q)) in
      let (free, awake) = running-record w x s ea in
      let loop : w.lsched.event_loop_coro ∈ (c ∷ rest) = ground (arith, s.looping, q) in
      rw
        (
          begin_run w (current w) c x y rest s.lock refl q ne ea ec,
          sleep_run w (current w) c x y rest s.lock refl q ne ea ec e saved,
        )
        (returns (
          entry-ne-stays c y y.context saved,
          record {
            sound =
                asleep-IsSound w (current w) c x y rest s.lock refl q ne ea ec (rw q at s.distinct)
                  (rw q at s.nonnull) (λ t i. s.ready t (rw q i)) loop up;
            next = refl;
            order = refl;
            timers = refl;
            poll = (refl, refl, refl);
            sleeper =
                (record (parked w x) { state = blocked }, ground arith, refl, free, refl, refl);
          },
        ))

  -- A caller whose state is not STATE_BLOCKING, since it was awakened or never announced its
  -- suspension, does not sleep.
  pub sched_suspend-stays :
      (x : Coroutine)
      → w.coros (current w) ≡ some x
      → is_blocking x.state ≡ false
      → Returns (λ ctl g. (ctl ≡ stays) × Stayed w c rest g) (sched_suspend w)
  unfolding sched_suspend
  sched_suspend-stays x ea e =
      let (y, ec, linked, up, saved) = s.ready c (ground (arith, q)) in
      let (free, awake') = running-record w x s ea in
      rw
        (
          begin_run w (current w) c x y rest s.lock refl q ne ea ec,
          wake_run w (current w) c x y rest s.lock refl q ne ea ec e,
        )
        (returns (
          refl,
          record {
            sound =
                awake-IsSound w (current w) c x y rest s.lock refl q ne ea ec (rw q at s.distinct)
                  (rw q at s.nonnull) (λ t i. s.ready t (rw q i)) (rw q at s.looping) free awake' up
                  saved;
            same = refl;
            order = refl;
            errno = refl;
          },
        ))
