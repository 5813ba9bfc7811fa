-- ===== src/Sched/Progress.antt =====
-- What the event loop does between two switches: coroutines are awakened, and queued behind the others.
use mathlib.Core.List.{append-nil, append_assoc}
use shproject.Prelude.{
  ℕ, ◌≡◌, refl, sym, ap, subst, ◌∙◌, false, some, List, [], ◌∷◌, ◌++◌, arith, ◌==◌, ◌⊎◌, inl, inr,
  Bool-cases, ◌∈◌, has-append,
}
use shproject.Prelude.Outcome.{Returns, Returns-mono}
use shproject.Sched.State.{runnable, Coroutine, World}
use shproject.Sched.Core.{is_blocked, sched_schedule}
use shproject.Sched.Invariant.{queue, current, IsSound}
use shproject.Sched.Schedule.{Scheduled, IsAsleep, sched_schedule-asleep, sched_schedule-awake}

-- A coroutine that can be awakened: it sleeps, or has not gone to sleep yet.
abbrev pub Wakeable : World → ℕ → Type 0
Wakeable w c =
    (x : Coroutine) × (IsAsleep w c x ⊎ ((w.coros c ≡ some x) × (is_blocked x.state ≡ false)))

pub Wakeable-same :
    (w g : World) (t : ℕ)
    → g.coros t ≡ w.coros t
    → current g ≡ current w
    → Wakeable w t
    → Wakeable g t
Wakeable-same w g t e same (x, inl z) = (
  x,
  inl (record {
    found = e ∙ z.found;
    state = z.state;
    free = z.free;
    saved = z.saved;
    nonnull = z.nonnull;
    idle = rw same z.idle;
  }),
)
Wakeable-same w g t e same (x, inr (found, up)) = (x, inr (e ∙ found, up))

Scheduled-Wakeable :
    (w : World) (c : ℕ) (new : List ℕ) (g : World)
    → Scheduled w c new g
    → (t : ℕ) → Wakeable w t
    → Wakeable g t
Scheduled-Wakeable w c new g p t wakeable = elim (Bool-cases (t == c)) [
  | inl self ↦
      let (_, x, _, found, state, _) = p.awake in
      let same : t ≡ c = ground arith in (x, inr (rw (same, found) refl, rw state refl))
  | inr other ↦ Wakeable-same w g t (p.others t other) p.same wakeable
]

-- The coroutine is runnable.
abbrev pub Runs : World → ℕ → Type 0
Runs w c = (x : Coroutine) × (w.coros c ≡ some x) × (x.state ≡ runnable)

-- The coroutine is not in STATE_BLOCKED.
abbrev pub IsUp : World → ℕ → Type 0
IsUp w c = (x : Coroutine) × (w.coros c ≡ some x) × (is_blocked x.state ≡ false)

-- The coroutine is runnable, and it is in the queue, or it was not asleep before.
abbrev pub Awoken : World → ℕ → World → Type 0
Awoken w c g = Runs g c × ((c ∈ queue g) ⊎ IsUp w c)

Scheduled-Runs :
    (w : World) (c : ℕ) (new : List ℕ) (g : World)
    → Scheduled w c new g
    → Runs g c × ((t : ℕ) → Runs w t → Runs g t)
Scheduled-Runs w c new g p =
    let (_, x, _, found, state, _) = p.awake in
    (
      (x, found, state),
      λ t (y, e, up). elim (Bool-cases (t == c)) [
        | inl self ↦ let same : t ≡ c = ground arith in (x, rw (same, found) refl, state)
        | inr other ↦ (y, p.others t other ∙ e, up)
      ],
    )

-- The same coroutine runs in a sound state, the queue has grown at its end, and what could be awakened
-- or was runnable still is. A coroutine that came out of STATE_BLOCKED is in the queue.
pub record Advanced (w g : World) : Type 0 where
  pub sound : IsSound g
  pub same : current g ≡ current w
  pub order : (more : List ℕ) × (queue g ≡ queue w ++ more)
  pub wakeable : (t : ℕ) → Wakeable w t → Wakeable g t
  pub awake : (t : ℕ) → Runs w t → Runs g t
  pub ups : (t : ℕ) → IsUp g t → (t ∈ queue g) ⊎ IsUp w t

pub Advanced-refl : (w : World) → IsSound w → Advanced w w
Advanced-refl w s = record {
  sound = s;
  same = refl;
  order = ([], sym (append-nil (queue w)));
  wakeable = λ t z. z;
  awake = λ t r. r;
  ups = λ t u. inr u;
}

pub Advanced-trans : (w b g : World) → Advanced w b → Advanced b g → Advanced w g
Advanced-trans w b g p q =
    let (more, e) = p.order in
    let (more', e') = q.order in
    record {
      sound = q.sound;
      same = q.same ∙ p.same;
      order = (more ++ more', e' ∙ ap (λ l. l ++ more') e ∙ append_assoc (queue w) more more');
      wakeable = λ t z. q.wakeable t (p.wakeable t z);
      awake = λ t r. q.awake t (p.awake t r);
      ups = λ t u. elim (q.ups t u) [
        | inl i ↦ inl i
        | inr u' ↦ elim (p.ups t u') [
          | inl i ↦ inl (ground (arith, e', has-append t (queue b) more'))
          | inr u'' ↦ inr u''
        ]
      ];
    }

-- The heap of the timers and the poller play no part.
pub Advanced-from :
    (w b g : World) → b.coros ≡ w.coros → b.lsched ≡ w.lsched → Advanced b g → Advanced w g
Advanced-from w b g coros local p = record {
  sound = p.sound;
  same = p.same ∙ ap (λ l. l.current_coro) local;
  order = let (more, e) = p.order in (more, e ∙ ap (λ l. l.run_list ++ more) local);
  wakeable = λ t z.
      p.wakeable t (Wakeable-same w b t (ap (λ f. f t) coros) (ap (λ l. l.current_coro) local) z);
  awake = λ t (x, e, up). p.awake t (x, ap (λ f. f t) coros ∙ e, up);
  ups = λ t u. elim (p.ups t u) [
    | inl i ↦ inl i
    | inr (x, e, up) ↦ inr (x, sym (ap (λ f. f t) coros) ∙ e, up)
  ];
}

-- What waking does, and what it leaves as it was.
pub record Woke (w : World) (c : ℕ) (g : World) : Type 0 where
  pub advanced : Advanced w g
  pub up : Runs g c
  pub timers : g.timer_heap ≡ w.timer_heap
  pub poll :
      (g.waits ≡ w.waits)
      × (g.epoll ≡ w.epoll)
      × (g.lsched.event_loop_coro ≡ w.lsched.event_loop_coro)

Scheduled-Woke :
    (w : World) (c : ℕ) (more : List ℕ) (g : World)
    → (c ∈ (queue w ++ more)) ⊎ IsUp w c
    → Scheduled w c (queue w ++ more) g
    → Woke w c g
Scheduled-Woke w c more g there p = record {
  advanced = record {
    sound = p.sound;
    same = p.same;
    order = (more, p.order);
    wakeable = Scheduled-Wakeable w c (queue w ++ more) g p;
    awake = (Scheduled-Runs w c (queue w ++ more) g p).1;
    ups = λ t (x, e, up). elim (Bool-cases (t == c)) [
      | inl self ↦
          let it : t ≡ c = ground arith in
          subst (λ t. (t ∈ queue g) ⊎ IsUp w t) (sym it) (rw p.order there)
      | inr other ↦ inr (x, sym (p.others t other) ∙ e, up)
    ];
  };
  up = (Scheduled-Runs w c (queue w ++ more) g p).0;
  timers = p.timers;
  poll = p.poll;
}

-- What is runnable came to it by the queue, or was not asleep.
pub Advanced-Awoken : (w g : World) (c : ℕ) → Advanced w g → Runs g c → Awoken w c g
Advanced-Awoken w g c p (x, e, up) = ((x, e, up), p.ups c (x, e, rw up refl))

-- sched_schedule wakes any coroutine that can be awakened.
pub sched_schedule-Woke :
    (w : World) (c : ℕ) → IsSound w → Wakeable w c → Returns (λ _. Woke w c) (sched_schedule c w)
sched_schedule-Woke w c s (x, inl z) =
    Returns-mono (sched_schedule-asleep w c x s z)
      (λ _ g. Scheduled-Woke w c (c ∷ []) g (inl (ground (arith, has-append c (queue w) (c ∷ [])))))
sched_schedule-Woke w c s (x, inr (found, up)) =
    Returns-mono (sched_schedule-awake w c x s found up) (λ _ g p.
      Scheduled-Woke w c [] g (inr (x, found, up))
        (subst (λ l. Scheduled w c l g) (sym (append-nil (queue w))) p))
