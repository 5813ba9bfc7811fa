-- ===== src/Sched/Schedule.antt =====
-- sched_schedule: a coroutine is awakened.
use shproject.Prelude.{
  ℕ, ◌≡◌, ◌≢◌, refl, ◌∙◌, true, false, some, List, [], ◌∷◌, ◌++◌, arith, ◌==◌, has, ◌∈◌, ◌∉◌,
  has-append, IsDistinct-snoc, Bool-cases, inl, inr,
}
use shproject.Prelude.Outcome.{ok, ◌>>◌, Returns, returns, Returns-bind, Returns-mono}
use shproject.Heap.{update}
use shproject.Sched.State.{runnable, blocked, nothing, Coroutine, World}
use shproject.Sched.Core.{is_blocked, sched_schedule}
use shproject.Sched.Invariant.{queue, current, IsSound}

-- A sleeping coroutine: blocked, in no list, not the current one, and with its context saved.
pub record IsAsleep (w : World) (c : ℕ) (x : Coroutine) : Type 0 where
  pub found : w.coros c ≡ some x
  pub state : x.state ≡ blocked
  pub free : x.linked ≡ false
  pub saved : x.context ≢ nothing
  pub nonnull : (c == 0) ≡ false
  pub idle : (c == current w) ≡ false

-- What sched_schedule promises: the coroutine is runnable, no other coroutine changes, and the
-- queue is `new`.
pub record Scheduled (w : World) (c : ℕ) (new : List ℕ) (g : World) : Type 0 where
  pub sound : IsSound g
  pub order : queue g ≡ new
  pub same : current g ≡ current w
  pub errno : g.lsched.errno ≡ w.lsched.errno
  pub timers : g.timer_heap ≡ w.timer_heap
  pub poll :
      (g.waits ≡ w.waits)
      × (g.epoll ≡ w.epoll)
      × (g.lsched.event_loop_coro ≡ w.lsched.event_loop_coro)
  pub slots : (g.local_count ≡ w.local_count) × (g.local_size ≡ w.local_size)
  pub awake :
      (y x : Coroutine) × (w.coros c ≡ some y)
      × (g.coros c ≡ some x)
      × (x.state ≡ runnable)
      × (x.private_errno ≡ y.private_errno)
  pub entry :
      (y x : Coroutine)
      → w.coros c ≡ some y
      → g.coros c ≡ some x
      → (x.start ≡ y.start) × (x.arg ≡ y.arg) × (x.context ≡ y.context)
  pub others : (t : ℕ) → (t == c) ≡ false → g.coros t ≡ w.coros t

-- The world after a sleeping coroutine was awakened, and after another one was.
abbrev pub awakened : World → ℕ → Coroutine → World
awakened w c x = record w {
  coros =
      update (update w.coros c (some (record x { state = runnable }))) c
        (some (record x { state = runnable; linked = true }));
  lsched = record w.lsched { run_list = queue w ++ c ∷ [] };
}

abbrev pub marked : World → ℕ → Coroutine → World
marked w c x = record w { coros = update w.coros c (some (record x { state = runnable })) }

pub awaken_run :
    (w : World) (c : ℕ) (x : Coroutine)
    → IsAsleep w c x
    → sched_schedule c w ≡ ok tt (awakened w c x)
unfolding sched_schedule
awaken_run w c x z = ground (arith, z)

pub mark_run :
    (w : World) (c : ℕ) (x : Coroutine)
    → w.coros c ≡ some x
    → is_blocked x.state ≡ false
    → sched_schedule c w ≡ ok tt (marked w c x)
unfolding sched_schedule
mark_run w c x e b = ground arith

sleeper_elsewhere :
    (w : World) (c : ℕ) (x : Coroutine)
    → IsSound w
    → IsAsleep w c x
    → (t : ℕ) → t ∈ (current w ∷ queue w)
    → (t == c) ≡ false
sleeper_elsewhere w c x s z t i = elim (Bool-cases (t == c)) [
  | inr apart ↦ apart
  | inl same ↦ elim (Bool-cases (t == current w)) [
    | inl runs ↦ absurd (ground (arith, z.idle))
    | inr queued ↦
        let (y, found, linked, up, saved) = s.ready t (ground arith) in
        absurd (ground (arith, z.found, z.free))
  ]
]

pub sleeper_out :
    (w : World) (c : ℕ) (x : Coroutine) → IsSound w → IsAsleep w c x → c ∉ (current w ∷ queue w)
sleeper_out w c x s z = elim (Bool-cases (has c (current w ∷ queue w))) [
  | inr out ↦ out
  | inl i ↦ let self = sleeper_elsewhere w c x s z c i in absurd (ground arith)
]

-- A sleeping coroutine that is awakened is put once behind the others in the queue.
pub sched_schedule-asleep :
    (w : World) (c : ℕ) (x : Coroutine)
    → IsSound w
    → IsAsleep w c x
    → Returns (λ _. Scheduled w c (queue w ++ c ∷ [])) (sched_schedule c w)
sched_schedule-asleep w c x s z =
    let apart = sleeper_elsewhere w c x s z in
    let out : c ∉ (current w ∷ queue w) = sleeper_out w c x s z in
    rw (awaken_run w c x z) (
      returns (record {
        sound = record {
          lock = s.lock;
          distinct = (
            ground (arith, s.distinct, out, has-append (current w) (queue w) (c ∷ [])),
            IsDistinct-snoc c (queue w) (ground (arith, out)) s.distinct.1,
          );
          nonnull = ground (arith, s.nonnull, z.nonnull, has-append 0 (queue w) (c ∷ []));
          ready = λ t i. elim (Bool-cases (t == c)) [
            | inl self ↦ (
              record x { state = runnable; linked = true },
              ground arith,
              refl,
              λ e. absurd cc,
              z.saved,
            )
            | inr other ↦
                let (y, found, linked, up, saved) =
                  s.ready t (ground (arith, has-append t (queue w) (c ∷ []))) in
                (y, ground arith, linked, up, saved)
          ];
          running =
              let (y, found, free, up) = s.running in
              (y, ground (arith, apart (current w)), free, up);
          looping =
              ground (arith, s.looping, has-append w.lsched.event_loop_coro (queue w) (c ∷ []));
        };
        order = refl;
        same = refl;
        errno = refl;
        timers = refl;
        poll = (refl, refl, refl);
        slots = (refl, refl);
        awake =
            (x, record x { state = runnable; linked = true }, z.found, ground arith, refl, refl);
        entry = λ y x' ey ex. ground (arith, z.found);
        others = λ t o. ground arith;
      }))

marked-IsSound :
    (w : World) (c : ℕ) (x : Coroutine) → IsSound w → w.coros c ≡ some x → IsSound (marked w c x)
marked-IsSound w c x s e = record {
  lock = s.lock;
  distinct = s.distinct;
  nonnull = s.nonnull;
  ready = λ t i. elim (Bool-cases (t == c)) [
    | inl self ↦
        let (y, found, linked, up, saved) = s.ready t i in
        let same : y ≡ x = ground arith in
        (
          record x { state = runnable },
          ground arith,
          ground arith,
          λ h. absurd cc,
          λ h. saved (ground arith),
        )
    | inr other ↦
        let (y, found, linked, up, saved) = s.ready t i in (y, ground arith, linked, up, saved)
  ];
  running = elim (Bool-cases (current w == c)) [
    | inl self ↦
        let (y, found, free, up) = s.running in
        (record x { state = runnable }, ground arith, ground arith, λ h. absurd cc)
    | inr other ↦ let (y, found, free, up) = s.running in (y, ground arith, free, up)
  ];
  looping = s.looping;
}

-- A coroutine that is not asleep is marked runnable, and queued no second time.
pub sched_schedule-awake :
    (w : World) (c : ℕ) (x : Coroutine)
    → IsSound w
    → w.coros c ≡ some x
    → is_blocked x.state ≡ false
    → Returns (λ _. Scheduled w c (queue w)) (sched_schedule c w)
sched_schedule-awake w c x s e b = rw (mark_run w c x e b) (
    returns (record {
      sound = marked-IsSound w c x s e;
      order = refl;
      same = refl;
      errno = refl;
      timers = refl;
      poll = (refl, refl, refl);
      slots = (refl, refl);
      awake = (x, record x { state = runnable }, e, ground arith, refl, refl);
      entry = λ y x' ey ex. ground arith;
      others = λ t o. ground arith;
    }))

-- Two wakers queue a sleeping coroutine once.
pub sched_schedule_twice :
    (w : World) (c : ℕ) (x : Coroutine)
    → IsSound w
    → IsAsleep w c x
    → Returns
        (λ _ g. IsSound g × (queue g ≡ queue w ++ c ∷ []) × (current g ≡ current w))
        ((sched_schedule c >> sched_schedule c) w)
sched_schedule_twice w c x s z = Returns-bind (sched_schedule-asleep w c x s z) λ _ g one.
    let (_, y, _, found, state, _) = one.awake in
    Returns-mono (sched_schedule-awake g c y one.sound found (rw state))
      λ _ g' two. (two.sound, two.order ∙ one.order, two.same ∙ one.same)
