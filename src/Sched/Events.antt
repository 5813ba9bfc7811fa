-- ===== src/Sched/Events.antt =====
-- The events of one poll: each wakes the coroutine that waits for it.
use shproject.Prelude.{
  ℕ, ◌≡◌, refl, subst, ◌∙◌, false, none, some, List, [], ◌∷◌, arith, ◌==◌, ◌⊎◌, inl, inr,
  Bool-cases, ◌∈◌,
}
use shproject.Prelude.Outcome.{ok, Returns, returns, Returns-bind, Returns-mono}
use shproject.Heap.{update}
use shproject.Sched.State.{EventWait, World}
use shproject.Sched.Wait.{sched_poll_event, dispatch}
use shproject.Sched.Invariant.{IsSound}
use shproject.Sched.Progress.{
  Wakeable, Wakeable-same, Runs, Awoken, Advanced-Awoken, Advanced, Advanced-refl, Advanced-trans,
  Advanced-from, sched_schedule-Woke,
}
use shproject.Sched.Event.{polled, polled-IsSound, answered, event_run}

-- There is a wait at `key`; its event came before, or its coroutine can be awakened.
abbrev pub IsEvent : World → ℕ → Type 0
IsEvent w key =
    (wait : EventWait) × (w.waits key ≡ some wait)
    × ((wait.coro ≡ none) ⊎ ((c : ℕ) × (wait.coro ≡ some c) × Wakeable w c))

abbrev pub AreEvents : World → List (ℕ × ℕ) → Type 0
AreEvents w [] = Unit {0}
AreEvents w ((key, revents) ∷ events) = IsEvent w key × AreEvents w events

abbrev pub keys : List (ℕ × ℕ) → List ℕ
keys [] = []
keys ((key, revents) ∷ events) = key ∷ keys events

-- The wait at `key` is that of the coroutine `c`, and no event came.
abbrev pub Waits : World → ℕ → ℕ → Type 0
Waits w key c = (wait : EventWait) × (w.waits key ≡ some wait) × (wait.coro ≡ some c)

-- What one event does.
record Came (w : World) (key : ℕ) (g : World) : Type 0 where
  advanced : Advanced w g
  timers : g.timer_heap ≡ w.timer_heap
  up : (c : ℕ) → Waits w key c → Runs g c
  spent : (wait : EventWait) × (g.waits key ≡ some wait) × (wait.coro ≡ none)
  others : (k : ℕ) → (k == key) ≡ false → g.waits k ≡ w.waits k

-- The second event of a wait changes nothing but the wait.
late_run :
    (w : World) (key revents : ℕ) (wait : EventWait)
    → w.waits key ≡ some wait
    → wait.coro ≡ none
    → sched_poll_event key revents w
      ≡ ok tt (polled w (update w.waits key (some (record wait { coro = none }))) w.epoll)
unfolding sched_poll_event
late_run w key revents wait e h = ground arith

event-Came :
    (w : World) (key revents : ℕ)
    → IsSound w
    → IsEvent w key
    → Returns (λ _. Came w key) (sched_poll_event key revents w)
event-Came w key revents s (wait, e, inl gone) =
    let b = polled w (update w.waits key (some (record wait { coro = none }))) w.epoll in
    rw (late_run w key revents wait e gone) (
      returns (record {
        advanced =
            Advanced-from w b b refl refl (Advanced-refl b (polled-IsSound w b.waits w.epoll s));
        timers = refl;
        up = λ c (wait', e', h). absurd (ground arith);
        spent = (record wait { coro = none }, ground arith, refl);
        others = λ k other. ground arith;
      }))
event-Came w key revents s (wait, e, inr (c, h, wakeable)) =
    let b = polled w (answered w key wait revents) w.epoll in
    rw (event_run w key c revents wait e h) (
      Returns-mono
        (sched_schedule-Woke b c (polled-IsSound w b.waits w.epoll s)
          (Wakeable-same w b c refl refl wakeable))
        λ _ g p. record {
          advanced = Advanced-from w b g refl refl p.advanced;
          timers = p.timers;
          up = λ c' (wait', e', h'). let it : c' ≡ c = ground arith in rw it p.up;
          spent = (record wait { coro = none; events = revents }, ground (arith, p.poll), refl);
          others = λ k other. ground (arith, p.poll);
        })

Came-IsEvent :
    (w : World) (key : ℕ) (g : World) → Came w key g → (k : ℕ) → IsEvent w k → IsEvent g k
Came-IsEvent w key g p k (wait, e, which) = elim (Bool-cases (k == key)) [
  | inl self ↦
      let it : k ≡ key = ground arith in
      let (spent, here, gone) = p.spent in (spent, rw it here, inl gone)
  | inr other ↦ elim which [
    | inl gone ↦ (wait, p.others k other ∙ e, inl gone)
    | inr (c, h, wakeable) ↦
        (wait, p.others k other ∙ e, inr (c, h, p.advanced.wakeable c wakeable))
  ]
]

Came-AreEvents :
    (w : World) (key : ℕ) (g : World)
    → Came w key g
    → (events : List (ℕ × ℕ)) → AreEvents w events
    → AreEvents g events
Came-AreEvents w key g p [] all = tt
Came-AreEvents w key g p ((k, revents) ∷ events) (is, all) =
    (Came-IsEvent w key g p k is, Came-AreEvents w key g p events all)

-- Every coroutine whose event came is runnable, and in the queue if it was asleep.
pub record Dispatched (w : World) (events : List (ℕ × ℕ)) (g : World) : Type 0 where
  pub advanced : Advanced w g
  pub timers : g.timer_heap ≡ w.timer_heap
  pub up : (key c : ℕ) → key ∈ keys events → Waits w key c → Awoken w c g

-- Events that come for waits wake every coroutine that waits for one of them; the queue grows at its
-- end, and the state stays sound. A second event for the same wait wakes nobody.
pub dispatch_lem :
    (events : List (ℕ × ℕ)) (w : World)
    → IsSound w
    → AreEvents w events
    → Returns (λ _. Dispatched w events) (dispatch events w)
unfolding dispatch
dispatch_lem [] w s all =
    returns (record { advanced = Advanced-refl w s; timers = refl; up = λ key c i. absurd cc })
dispatch_lem ((key, revents) ∷ events) w s (is, all) =
    Returns-bind (event-Came w key revents s is) λ _ b p.
      Returns-mono (dispatch_lem events b p.advanced.sound (Came-AreEvents w key b p events all))
        λ _ g q.
          let both = Advanced-trans w b g p.advanced q.advanced in
          record {
            advanced = both;
            timers = q.timers ∙ p.timers;
            up = λ k c i waits. Advanced-Awoken w g c both (elim (Bool-cases (k == key)) [
              | inl self ↦
                  let it : k ≡ key = ground arith in
                  q.advanced.awake c (p.up c (subst (λ k. Waits w k c) it waits))
              | inr other ↦
                  let (wait, e, h) = waits in
                  (q.up k c (ground arith) (wait, p.others k other ∙ e, h)).0
            ]);
          }
