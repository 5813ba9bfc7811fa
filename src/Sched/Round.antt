-- ===== src/Sched/Round.antt =====
-- A round of the event loop: the poll, the events and the timers.
use shproject.Prelude.{
  ℕ, ◌≤◌, ◌<◌, ◌≡◌, refl, sym, ap, subst, ◌∙◌, Bool, true, false, List, ◌∷◌, ◌++◌, arith, ◌==◌, ◌⊎◌,
  inl, inr, Bool-cases, ◌∈◌, ltb, length,
}
use shproject.Prelude.Outcome.{Returns, returns, Returns-bind, Returns-mono}
use shproject.Heap.{Heap}
use shproject.Heap.Order.{IsHeap, key}
use shproject.Heap.Pop.{heap_min_lem, pop_min-empty}
use shproject.Timer.{Timespec, TimerWait, timer_compare, is_zero, nanos}
use shproject.Timer.Order.{rank}
use shproject.Sched.State.{World}
use shproject.Sched.Core.{is_nil}
use shproject.Sched.Wait.{
  Answer, ready, max_events, sched_poll_timeout, platform_poll_poll, sched_handle_timers,
}
use shproject.Sched.Invariant.{queue, IsSound}
use shproject.Sched.Schedule.{sleeper_out}
use shproject.Sched.Resched.{Yielded}
use shproject.Sched.Progress.{Wakeable, Awoken, Advanced-Awoken, Advanced, Advanced-trans}
use shproject.Sched.Expire.{IsTimer, IsHeap-mono, AllFrom, timers_of, sched_handle_timers_lem}
use shproject.Sched.Events.{AreEvents, keys, Waits, Dispatched, dispatch_lem}
use shproject.Sched.Answers.{all_go_on, events_of, platform_poll_poll_lem}

-- With a coroutine queued the poll does not block.
pub timeout_lem :
    (now : Timespec) (w : World)
    → IsHeap (IsTimer w) rank w.timer_heap
    → Returns
        (λ z g. (g ≡ w) × (is_nil (queue w) ≡ false → is_zero z ≡ true))
        (sched_poll_timeout now w)
unfolding sched_poll_timeout
timeout_lem now w heap = elim (Bool-cases (is_nil (queue w))) [
  | inr busy ↦ rw busy (returns (refl, λ e. refl))
  | inl idle ↦ elim (Bool-cases (w.timer_heap.items == 0)) [
    | inl empty ↦
        let (min, pop) = pop_min-empty w.timer_heap true (ground arith) in
        rw (idle, min) (returns (refl, λ e. absurd cc))
    | inr some_left ↦
        let (x, min, _, _, _) = heap_min_lem w.timer_heap heap (ground arith) in
        rw (idle, min) (returns (refl, λ e. absurd cc))
  ]
]

pub poll_lem :
    (before after : List Answer) (last : List (ℕ × ℕ)) (w : World)
    → IsSound w
    → all_go_on before ≡ true
    → ltb (length last) max_events ≡ true
    → AreEvents w (events_of before ++ last)
    → Returns
        (λ r g. (r ≡ true) × Dispatched w (events_of before ++ last) g)
        (platform_poll_poll (before ++ ready last ∷ after) w)
poll_lem before after last w s go short all =
    rw (platform_poll_poll_lem before after last w go short)
      (Returns-bind (dispatch_lem (events_of before ++ last) w s all) (λ _ g p. returns (refl, p)))

-- The timers are those of coroutines that can be awakened, still.
pub forward_timers :
    (w g : World)
    → ((t : ℕ) → Wakeable w t → Wakeable g t)
    → g.timer_heap ≡ w.timer_heap
    → IsHeap (IsTimer w) rank w.timer_heap
    → IsHeap (IsTimer g) rank g.timer_heap
forward_timers w g wakeable timers heap =
    subst (λ k. IsHeap (IsTimer g) rank k) (sym timers)
      (IsHeap-mono w.timer_heap (λ t f. (f.0, wakeable t.coro f.1)) heap)

pub yield-Wakeable :
    (w : World) (c : ℕ) (rest : List ℕ) (g : World)
    → IsSound w
    → queue w ≡ c ∷ rest
    → Yielded w c rest g
    → (t : ℕ) → Wakeable w t
    → Wakeable g t
yield-Wakeable w c rest g s q y t (x, inl z) =
    let out = sleeper_out w t x s z in
    (
      x,
      inl (record {
        found = y.others t out ∙ z.found;
        state = z.state;
        free = z.free;
        saved = z.saved;
        nonnull = z.nonnull;
        idle = ground (arith, y.next, q);
      }),
    )
yield-Wakeable w c rest g s q y t (x, inr (found, up)) =
    let (x', found', same) = y.states t x found in (x', inr (found', rw same up))

-- What the events and the timers of a round do, before the turn of the others.
pub record Polled (w : World) (start : Timespec) (events : List (ℕ × ℕ)) (g : World) : Type 0 where
  pub advanced : Advanced w g
  pub heap : IsHeap (IsTimer g) rank g.timer_heap
  pub left :
      (i : ℕ) → 0 < i → i ≤ g.timer_heap.items → nanos start < key rank g.timer_heap.block.cell i
  pub up : (key c : ℕ) → key ∈ keys events → Waits w key c → Awoken w c g
  pub woken : (c : ℕ) → (timers_of g.timer_heap c ≡ timers_of w.timer_heap c) ⊎ Awoken w c g

pub handle-Polled :
    (w b : World) (start : Timespec) (events : List (ℕ × ℕ)) (readings : List (Timespec × Bool))
    → w.timer_heap.compare ≡ timer_compare
    → IsHeap (IsTimer w) rank w.timer_heap
    → AllFrom start readings
    → w.timer_heap.items ≤ length readings
    → Dispatched w events b
    → Returns (λ _. Polled w start events) (sched_handle_timers readings b)
handle-Polled w b start events readings cmp heap from enough p =
    Returns-mono
      (sched_handle_timers_lem readings b start p.advanced.sound
        (ap (λ (k : Heap TimerWait). k.compare) p.timers ∙ cmp)
        (forward_timers w b p.advanced.wakeable p.timers heap) from
        (subst (λ (k : Heap TimerWait). k.items ≤ length readings) (sym p.timers) enough))
      λ _ g q.
        let both = Advanced-trans w b g p.advanced q.advanced in
        record {
          advanced = both;
          heap = q.heap;
          left = q.left;
          up = λ key c i waits.
              Advanced-Awoken w g c both (q.advanced.awake c (p.up key c i waits).0);
          woken = λ c. elim (q.woken c) [
            | inl same ↦ inl (same ∙ ap (λ k. timers_of k c) p.timers)
            | inr runs ↦ inr (Advanced-Awoken w g c both runs.0)
          ];
        }
