-- ===== src/Sched/Turned.antt =====
-- The end of a round of the event loop: the turn of the others.
use shproject.Prelude.{
  ℕ, ◌≤◌, ◌<◌, ◌≡◌, ◌≢◌, refl, sym, ap, ◌∙◌, true, false, List, [], ◌∷◌, ◌++◌, arith, ◌⊎◌, inl, inr,
  ◌∈◌, has-append,
}
use shproject.Prelude.Int.{ℤ}
use shproject.Prelude.Outcome.{Returns, returns, Returns-mono}
use shproject.Heap.Order.{IsHeap, key}
use shproject.Timer.{Timespec, is_zero, nanos}
use shproject.Timer.Order.{rank}
use shproject.Sched.State.{World, Control, stays}
use shproject.Sched.Core.{is_nil, sched_resched}
use shproject.Sched.Invariant.{queue, current, IsSound}
use shproject.Sched.Resched.{Yielded, sched_resched_lem, sched_resched-nil}
use shproject.Sched.Progress.{Runs, IsUp, Awoken}
use shproject.Sched.Expire.{IsTimer, timers_of}
use shproject.Sched.Events.{keys, Waits}
use shproject.Sched.Round.{forward_timers, yield-Wakeable, Polled}

-- The coroutine is runnable, and it runs or is in the queue, or it was not asleep before.
abbrev pub Turns : World → ℕ → World → Type 0
Turns w c g = Runs g c × ((c ∈ (current g ∷ queue g)) ⊎ IsUp w c)

-- What a round leaves: a sound state, no timer that was due at `start`, and every coroutine whose event
-- came or whose timer left the heap is runnable, and runs or is queued if it was asleep. A coroutine
-- that was first in the queue runs, the caller is the last of the queue, and no round stays that had
-- one queued.
pub record Turned (w : World) (start : Timespec) (events : List (ℕ × ℕ)) (ctl : Control) (g : World)
    : Type 0 where
  pub sound : IsSound g
  pub heap : IsHeap (IsTimer g) rank g.timer_heap
  pub left :
      (i : ℕ) → 0 < i → i ≤ g.timer_heap.items → nanos start < key rank g.timer_heap.block.cell i
  pub up : (key c : ℕ) → key ∈ keys events → Waits w key c → Turns w c g
  pub woken : (c : ℕ) → (timers_of g.timer_heap c ≡ timers_of w.timer_heap c) ⊎ Turns w c g
  pub turn :
      (c : ℕ) (rest : List ℕ)
      → queue w ≡ c ∷ rest
      → (ctl ≢ stays)
        × (current g ≡ c)
        × ((more : List ℕ) × (queue g ≡ (rest ++ more) ++ current w ∷ []))
  pub stay : ctl ≡ stays → (current g ≡ current w) × (queue w ≡ [])

queued-Turns : (w : World) (c : ℕ) (g : World) → Awoken w c g → Turns w c g
queued-Turns w c g (runs, inl i) = (runs, inl (ground arith))
queued-Turns w c g (runs, inr up) = (runs, inr up)

yield-Turns :
    (w : World) (t c : ℕ) (rest : List ℕ) (b g : World)
    → queue b ≡ c ∷ rest
    → Yielded b c rest g
    → Awoken w t b
    → Turns w t g
yield-Turns w t c rest b g q y ((x, e, up), there) =
    let (x', e', same) = y.states t x e in
    (
      (x', e', same ∙ up),
      elim there [
        | inl i ↦ inl (ground (arith, i, q, y.next, y.order, has-append t rest (current b ∷ [])))
        | inr was_up ↦ inr was_up
      ],
    )

pub stay-Turned :
    (w g : World) (start : Timespec) (events : List (ℕ × ℕ))
    → queue w ≡ []
    → Polled w start events g
    → Turned w start events stays g
stay-Turned w g start events idle p = record {
  sound = p.advanced.sound;
  heap = p.heap;
  left = p.left;
  up = λ key c i waits. queued-Turns w c g (p.up key c i waits);
  woken =
      λ c. elim (p.woken c) [ inl same ↦ inl same | inr awoken ↦ inr (queued-Turns w c g awoken) ];
  turn = λ c rest e. absurd cc;
  stay = λ e. (p.advanced.same, idle);
}

yield-Turned :
    (w b : World) (start : Timespec) (events : List (ℕ × ℕ)) (c : ℕ) (rest : List ℕ)
    → queue b ≡ c ∷ rest
    → Polled w start events b
    → Returns (Turned w start events) (sched_resched b)
yield-Turned w b start events c rest q p =
    Returns-mono (sched_resched_lem b c rest p.advanced.sound q) λ ctl g (moved, y). record {
      sound = y.sound;
      heap = forward_timers b g (yield-Wakeable b c rest g p.advanced.sound q y) y.timers p.heap;
      left = rw y.timers p.left;
      up = λ key t i waits. yield-Turns w t c rest b g q y (p.up key t i waits);
      woken = λ t. elim (p.woken t) [
        | inl same ↦ inl (ap (λ k. timers_of k t) y.timers ∙ same)
        | inr up ↦ inr (yield-Turns w t c rest b g q y up)
      ];
      turn = λ c' rest' e.
          let (more, order) = p.advanced.order in
          let first : c' ≡ c = ground arith in
          let others : rest ≡ rest' ++ more = ground arith in
          (
            moved,
            y.next ∙ sym first,
            (
              more,
              y.order
                  ∙ ap (λ l. l ++ current b ∷ []) others
                  ∙ ap (λ a. (rest' ++ more) ++ a ∷ []) p.advanced.same,
            ),
          );
      stay = λ e. absurd (moved e);
    }

uncons-cases : (l : List ℕ) → (l ≡ []) ⊎ ((c : ℕ) × (rest : List ℕ) × (l ≡ c ∷ rest))
uncons-cases [] = inl refl
uncons-cases (c ∷ rest) = inr (c, rest, refl)

append-nil-left : (l more : List ℕ) → [] ≡ l ++ more → l ≡ []
append-nil-left [] more e = refl
append-nil-left (c ∷ l) more e = absurd cc

-- The end of a round with the timeout 0.
pub resched-Turned :
    (w b : World) (start : Timespec) (events : List (ℕ × ℕ))
    → Polled w start events b
    → Returns (Turned w start events) (sched_resched b)
resched-Turned w b start events p = elim (uncons-cases (queue b)) [
  | inr (c, rest, q) ↦ yield-Turned w b start events c rest q p
  | inl empty ↦
      let (more, order) = p.advanced.order in
      rw (sched_resched-nil b empty) (
        returns
          (stay-Turned w b start events (append-nil-left (queue w) more (sym empty ∙ order)) p))
]

-- The end of a round with another timeout.
pub stay-nil :
    (l : List ℕ) (z : ℤ) → (is_nil l ≡ false → is_zero z ≡ true) → is_zero z ≡ false → l ≡ []
stay-nil [] z zero_if block = refl
stay-nil (c ∷ l) z zero_if block = absurd (ground (arith, zero_if refl))
