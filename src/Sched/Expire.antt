-- ===== src/Sched/Expire.antt =====
-- sched_handle_timers: the timers that are due leave the heap, and their coroutines are awakened.
use shproject.Prelude.{
  ℕ, ◌<◌, ◌≤◌, ◌≡◌, refl, sym, ap, subst, ◌∙◌, Bool, true, false, some, List, [], ◌∷◌, arith, ◌==◌,
  if◌then◌else◌, ◌⊎◌, inl, inr, Bool-cases, length,
}
use shproject.Prelude.Int.{is_positive}
use shproject.Prelude.Outcome.{Returns, returns, Returns-bind, Returns-mono, Returns-inv}
use shproject.Heap.{Heap}
use shproject.Heap.Order.{bag, IsHeap, Agrees, key}
use shproject.Heap.Pop.{Popped, heap_pop_min_lem, heap_min_lem}
use shproject.Timer.{Timespec, TimerWait, timer_compare, timer_expiration, nanos, IsNormal}
use shproject.Timer.Order.{InEpoch, rank, timer_compare-Agrees}
use shproject.Timer.Expiry.{timer_expiration-due}
use shproject.Sched.State.{World}
use shproject.Sched.Wait.{sched_handle_timers}
use shproject.Sched.Invariant.{IsSound}
use shproject.Sched.Progress.{
  Advanced-from, Wakeable-same, Wakeable, Runs, Advanced, Advanced-refl, Advanced-trans, Awoken,
  Advanced-Awoken, Woke, sched_schedule-Woke,
}
use shproject.Sched.Timers.{timed, timed-IsSound}

-- A timer whose time can be compared, and whose coroutine can be awakened.
abbrev pub IsTimer : World → TimerWait → Type 0
IsTimer w t = InEpoch t × Wakeable w t.coro

IsTimer-Agrees : (w : World) → Agrees (IsTimer w) rank timer_compare
IsTimer-Agrees w = record {
  above = λ a b p q. timer_compare-Agrees.above a b p.0 q.0;
  below = λ a b p q. timer_compare-Agrees.below a b p.0 q.0;
}

pub IsHeap-mono :
    {Fit Fit' : TimerWait → Type 0} (h : Heap TimerWait)
    → ((t : TimerWait) → Fit t → Fit' t)
    → IsHeap Fit rank h
    → IsHeap Fit' rank h
IsHeap-mono h weaken v = record {
  room = v.room;
  sized = v.sized;
  ordered = record {
    live = λ i p q. let (x, e, fit) = v.ordered.live i p q in (x, e, weaken x fit);
    order = v.ordered.order;
  };
}

-- Every reading of the clock is normal and not before `start`.
abbrev pub AllFrom : Timespec → List (Timespec × Bool) → Type 0
AllFrom start [] = Unit {0}
AllFrom start ((now, granted) ∷ readings) =
    IsNormal now × (nanos start ≤ nanos now) × AllFrom start readings

abbrev of_coro : ℕ → TimerWait → ℕ
of_coro c t = if t.coro == c then 1 else 0

-- How many timers of the coroutine the heap holds.
abbrev pub timers_of : Heap TimerWait → ℕ → ℕ
timers_of h c = bag (of_coro c) h.items h.block.cell

Popped-other :
    (Fit : TimerWait → Type 0) (h g : Heap TimerWait) (x y : TimerWait) (c : ℕ)
    → Popped Fit rank h y g
    → h.block.cell 1 ≡ some x
    → (x.coro == c) ≡ false
    → timers_of g c ≡ timers_of h c
Popped-other Fit h g x y c p root other =
    let same : y ≡ x = ground (arith, p.root) in
    let none_of : of_coro c y ≡ 0 = rw (same, other) refl in
    omega (arith, p.bag_of (of_coro c), none_of)

-- The state is sound, the same coroutine runs, the timers that are left are later than `start`, and
-- a coroutine that lost a timer is runnable, and in the queue if it was asleep.
pub record Handled (w : World) (start : Timespec) (g : World) : Type 0 where
  pub advanced : Advanced w g
  pub heap : IsHeap (IsTimer g) rank g.timer_heap
  pub left :
      (i : ℕ) → 0 < i → i ≤ g.timer_heap.items → nanos start < key rank g.timer_heap.block.cell i
  pub woken : (c : ℕ) → (timers_of g.timer_heap c ≡ timers_of w.timer_heap c) ⊎ Awoken w c g

later_time :
    (start now : Timespec) (t : TimerWait)
    → IsNormal now
    → InEpoch t
    → nanos start ≤ nanos now
    → is_positive (timer_expiration now t) ≡ true
    → nanos start < rank t
later_time start now t n fit p e = ground (arith, timer_expiration-due now t n fit.normal)

Handled-round :
    (w g g' : World) (h : Heap TimerWait) (start : Timespec) (x y : TimerWait)
    → Popped (IsTimer w) rank w.timer_heap y h
    → w.timer_heap.block.cell 1 ≡ some x
    → Woke (timed w h) x.coro g
    → Handled g start g'
    → Handled w start g'
Handled-round w g g' h start x y popped root woke q =
    let both : Advanced w g' =
      Advanced-trans w g g' (Advanced-from w (timed w h) g refl refl woke.advanced) q.advanced in
    record {
      advanced = both;
      heap = q.heap;
      left = q.left;
      woken = λ c. elim (Bool-cases (x.coro == c)) [
        | inl self ↦
            let it : x.coro ≡ c = ground arith in
            inr (Advanced-Awoken w g' c both (q.advanced.awake c (subst (Runs g) it woke.up)))
        | inr other ↦ elim (q.woken c) [
          | inl e ↦ inl (
              e
              ∙ ap (λ k. timers_of k c) woke.timers
              ∙ Popped-other (IsTimer w) w.timer_heap h x y c popped root other)
          | inr r ↦ inr (Advanced-Awoken w g' c both r.0)
        ]
      ];
    }

-- With at least as many readings of the clock as timers, sched_handle_timers returns, and every
-- timer that was due at a time that no reading is before has left the heap. A coroutine that lost a
-- timer is runnable, and in the queue if it was asleep. The state stays sound, from a sound one in which
-- the times can be compared and each timer's coroutine can be awakened.
pub sched_handle_timers_lem :
    (readings : List (Timespec × Bool)) (w : World) (start : Timespec)
    → IsSound w
    → w.timer_heap.compare ≡ timer_compare
    → IsHeap (IsTimer w) rank w.timer_heap
    → AllFrom start readings
    → w.timer_heap.items ≤ length readings
    → Returns (λ _. Handled w start) (sched_handle_timers readings w)
unfolding sched_handle_timers
sched_handle_timers_lem [] w start s cmp heap from enough =
    let empty : (w.timer_heap.items == 0) ≡ true = ground arith in
    rw empty (
      returns (record {
        advanced = Advanced-refl w s;
        heap = heap;
        left = λ i p q. absurd (omega arith);
        woken = λ c. inl refl;
      }))
sched_handle_timers_lem ((now, granted) ∷ readings) w start s cmp heap (normal, late, from) enough =
    elim (Bool-cases (w.timer_heap.items == 0)) [
      | inl empty ↦ rw empty (
          returns (record {
            advanced = Advanced-refl w s;
            heap = heap;
            left = λ i p q. absurd (ground arith);
            woken = λ c. inl refl;
          }))
      | inr busy ↦
          let some_left : 0 < w.timer_heap.items = ground arith in
          let (x, min, fit, root, least) = heap_min_lem w.timer_heap heap some_left in
          rw (busy, min)
            (elim (Bool-cases (is_positive (timer_expiration now x))) [
              | inl wait ↦ rw wait (
                  returns (record {
                    advanced = Advanced-refl w s;
                    heap = heap;
                    left = λ i p q.
                        omega (arith, later_time start now x normal fit.0 late wait, least i p q);
                    woken = λ c. inl refl;
                  }))
              | inr due ↦
                  let (r, h, pop, both) = Returns-inv (
                    heap_pop_min_lem w.timer_heap granted
                      (subst (Agrees (IsTimer w) rank) (sym cmp) (IsTimer-Agrees w)) heap
                      some_left) in
                  let (y, _, popped) = both in
                  rw (due, pop)
                    (Returns-bind
                      (sched_schedule-Woke (timed w h) x.coro (timed-IsSound w h s)
                        (Wakeable-same w (timed w h) x.coro refl refl fit.1))
                      λ _ g woke.
                        let timers = woke.timers in
                        let forward : (t : TimerWait) → IsTimer w t → IsTimer g t = λ t f. (
                          f.0,
                          woke.advanced.wakeable t.coro
                              (Wakeable-same w (timed w h) t.coro refl refl f.1),
                        ) in
                        Returns-mono
                          (sched_handle_timers_lem readings g start woke.advanced.sound
                            (rw timers (popped.compare ∙ cmp))
                            (subst (λ k. IsHeap (IsTimer g) rank k) (sym timers)
                              (IsHeap-mono h forward popped.heap))
                            from
                            (subst (λ (k : Heap TimerWait). k.items ≤ length readings) (sym timers)
                              (omega (arith, popped.items))))
                          λ _ g' q. Handled-round w g g' h start x y popped root woke q)
            ])
    ]
