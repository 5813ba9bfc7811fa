-- ===== src/Sched/Resched.antt =====
-- sched_resched: a coroutine gives up its timeslice.
use shproject.Prelude.{
  ℕ, ◌≡◌, ◌≢◌, refl, true, false, some, List, [], ◌∷◌, ◌++◌, arith, ◌==◌, ◌∈◌, ◌∉◌, IsDistinct,
  has-append, IsDistinct-snoc, Bool-cases, inl, inr, not-mem_of_mem,
}
use shproject.Prelude.Outcome.{ok, Returns, returns}
use shproject.Heap.{update}
use shproject.Sched.State.{nothing, at_switch, Coroutine, World, stays}
use shproject.Sched.Core.{sched_switch_context, sched_resched}
use shproject.Sched.Invariant.{entry, entry-ne-stays, queue, current, MayRun, IsReady, IsSound}

-- The world after the coroutine `a`, with record `x`, switched to `c`, with record `y`: the errno of
-- `a` is kept, that of `c` is back, and preemption is free again.
abbrev pub switched : World → ℕ → Coroutine → ℕ → Coroutine → World
switched w a x c y = record w {
  coros =
      update (update w.coros a (some (record x { private_errno = w.lsched.errno }))) a
        (some (record x { private_errno = w.lsched.errno; context = at_switch }));
  lsched = record w.lsched { current_coro = c; errno = y.private_errno };
}

pub switch_run :
    (w : World) (a c : ℕ) (x y : Coroutine)
    → w.lsched.preempt_lock ≡ false
    → w.lsched.current_coro ≡ a
    → (a == 0) ≡ false
    → (c == a) ≡ false
    → w.coros a ≡ some x
    → w.coros c ≡ some y
    → y.context ≢ nothing
    → sched_switch_context c w ≡ ok (entry c y y.context) (switched w a x c y)
unfolding sched_switch_context entry
switch_run w a c x y lock cur nz ne ea ec saved = ground arith

-- The world when the queue was `c ∷ rest` and the coroutine `a` went to its end.
abbrev pub rotated : World → ℕ → Coroutine → ℕ → Coroutine → List ℕ → World
rotated w a x c y rest = record w {
  coros =
      update (update w.coros a (some (record x { linked = true }))) c
        (some (record y { linked = false }));
  lsched = record w.lsched { run_list = rest ++ a ∷ [] };
}

pub resched_run :
    (w : World) (a c : ℕ) (x y : Coroutine) (rest : List ℕ)
    → w.lsched.preempt_lock ≡ false
    → w.lsched.current_coro ≡ a
    → w.lsched.run_list ≡ c ∷ rest
    → (a == 0) ≡ false
    → (c == a) ≡ false
    → w.coros a ≡ some x
    → w.coros c ≡ some y
    → x.linked ≡ false
    → y.context ≢ nothing
    → sched_resched w
      ≡ ok (entry c y y.context) (
          switched
            (rotated w a x c y rest)
            a
            (record x { linked = true })
            c
            (record y { linked = false }))
unfolding sched_resched entry
resched_run w a c x y rest lock cur q nz ne ea ec free saved = ground arith

-- What sched_resched promises when `c` is the first of the queue and `rest` follows: `c` runs, the
-- caller is the last of the queue, and each has the errno it had.
pub record Yielded (w : World) (c : ℕ) (rest : List ℕ) (g : World) : Type 0 where
  pub sound : IsSound g
  pub next : current g ≡ c
  pub order : queue g ≡ rest ++ current w ∷ []
  pub poll :
      (g.waits ≡ w.waits)
      × (g.epoll ≡ w.epoll)
      × (g.lsched.event_loop_coro ≡ w.lsched.event_loop_coro)
  pub kept : (x : Coroutine) × (g.coros (current w) ≡ some x) × (x.private_errno ≡ w.lsched.errno)
  pub restored : (y : Coroutine) × (w.coros c ≡ some y) × (g.lsched.errno ≡ y.private_errno)
  pub timers : g.timer_heap ≡ w.timer_heap
  pub states :
      (t : ℕ) (z : Coroutine)
      → w.coros t ≡ some z
      → (z' : Coroutine) × (g.coros t ≡ some z') × (z'.state ≡ z.state)
  pub errnos :
      (t : ℕ) (z z' : Coroutine)
      → w.coros t ≡ some z
      → g.coros t ≡ some z'
      → (t == current w) ≡ false
      → z'.private_errno ≡ z.private_errno
  pub others : (t : ℕ) → t ∉ (current w ∷ queue w) → g.coros t ≡ w.coros t

yielded-IsReady :
    (w : World) (a c : ℕ) (x y : Coroutine) (rest : List ℕ)
    → ((t : ℕ) → t ∈ (c ∷ rest) → IsReady w t)
    → IsDistinct (a ∷ c ∷ rest)
    → MayRun w a x.state
    → (t : ℕ) → t ∈ (rest ++ a ∷ [])
    → IsReady
        (switched
          (rotated w a x c y rest)
          a
          (record x { linked = true })
          c
          (record y { linked = false }))
        t
yielded-IsReady w a c x y rest ready d awake t i = elim (Bool-cases (t == a)) [
  | inl self ↦ (
    record x { linked = true; private_errno = w.lsched.errno; context = at_switch },
    ground arith,
    refl,
    λ e. ground (arith, awake e),
    λ e. cc,
  )
  | inr other ↦
      let (z, found, linked, up, saved) = ready t (ground (arith, has-append t rest (a ∷ []))) in
      (z, ground (arith, has-append t rest (a ∷ []), d, not-mem_of_mem c t rest), linked, up, saved)
]

yielded-IsSound :
    (w : World) (a c : ℕ) (x y : Coroutine) (rest : List ℕ)
    → w.lsched.preempt_lock ≡ false
    → IsDistinct (a ∷ c ∷ rest)
    → 0 ∉ (a ∷ c ∷ rest)
    → ((t : ℕ) → t ∈ (c ∷ rest) → IsReady w t)
    → w.lsched.event_loop_coro ∈ (a ∷ c ∷ rest)
    → w.coros c ≡ some y
    → MayRun w a x.state
    → MayRun w c y.state
    → IsSound (
        switched
          (rotated w a x c y rest)
          a
          (record x { linked = true })
          c
          (record y { linked = false }))
yielded-IsSound w a c x y rest lock d nz ready loop ec awake awake' = record {
  lock = lock;
  distinct = (
    ground (arith, d, has-append c rest (a ∷ [])),
    IsDistinct-snoc a rest (ground (arith, d)) d.1.1,
  );
  nonnull = ground (arith, has-append 0 rest (a ∷ []));
  ready = yielded-IsReady w a c x y rest ready d awake;
  running = (record y { linked = false }, ground (arith, d), refl, awake');
  looping = ground (arith, has-append w.lsched.event_loop_coro rest (a ∷ []));
}

-- sched_resched with a coroutine in the queue runs the first one and queues the caller behind the
-- others; the errno of the caller is kept with it, and that of the next one is back.
pub sched_resched_lem :
    (w : World) (c : ℕ) (rest : List ℕ)
    → IsSound w
    → queue w ≡ c ∷ rest
    → Returns (λ ctl g. (ctl ≢ stays) × Yielded w c rest g) (sched_resched w)
sched_resched_lem w c rest s q =
    let (x, ea, free, awake) = s.running in
    let (y, ec, linked, awake', saved) = s.ready c (ground (arith, q)) in
    let nz : (current w == 0) ≡ false = ground (arith, s.nonnull) in
    let ne : (c == current w) ≡ false = ground (arith, q, s.distinct) in
    rw (resched_run w (current w) c x y rest s.lock refl q nz ne ea ec free saved) (
      returns (
        entry-ne-stays c y y.context saved,
        record {
          sound =
              yielded-IsSound w (current w) c x y rest s.lock (rw q at s.distinct)
                (rw q at s.nonnull) (λ t i. s.ready t (rw q i)) (rw q at s.looping) ec awake awake';
          next = refl;
          order = refl;
          poll = (refl, refl, refl);
          kept = (
            record x { linked = true; private_errno = w.lsched.errno; context = at_switch },
            ground arith,
            refl,
          );
          restored = (y, ec, refl);
          timers = refl;
          states = λ t z e. elim (Bool-cases (t == current w)) [
            | inl self ↦ (
              record x { linked = true; private_errno = w.lsched.errno; context = at_switch },
              ground arith,
              ground arith,
            )
            | inr apart ↦ elim (Bool-cases (t == c)) [
              | inl next ↦ (record y { linked = false }, ground arith, ground arith)
              | inr other ↦ (z, ground arith, refl)
            ]
          ];
          errnos = λ t z z' e e' apart. elim (Bool-cases (t == c)) [
            | inl next ↦ ground arith
            | inr other ↦ ground arith
          ];
          others = λ t out. ground (arith, q);
        },
      ))

-- With nothing queued, sched_resched returns to its caller at once.
pub sched_resched-nil : (w : World) → queue w ≡ [] → sched_resched w ≡ ok stays w
unfolding sched_resched
sched_resched-nil w e = ground arith
