-- ===== src/Heap/Push.antt =====
-- heap_push.
use shproject.Prelude.{
  ℕ, ◌+◌, ◌*◌, ◌/◌, ◌≤◌, ◌<◌, ◌≡◌, refl, sym, ap, subst, ◌∙◌, Bool, true, ◌⊎◌, inl, inr, arith, leb,
  ◌==◌, Bool-cases,
}
use mathlib.Core.Path.{ap₂}
use shproject.Prelude.Outcome.{fault, Returns, returns, Returns-bind}
use shproject.Heap.{Heap, realloc_block, grow, place, heap_push}
use shproject.Heap.Order.{bag, bag-cong, bag-snoc, Agrees, IsOrdered, IsHeap}
use shproject.Heap.Cells.{filled, stored, store-ok, Settled}
use shproject.Heap.Up.{UpInv, up_loop_lem}

-- `g` is a heap of the items of `h` and of `item`, with the same comparator.
pub record Pushed {A : Type 0} (Fit : A → Type 0) (rank : A → ℕ) (h : Heap A) (item : A)
    (g : Heap A) : Type 0 where
  pub heap : IsHeap Fit rank g
  pub items : g.items ≡ h.items + 1
  pub bag_of : (w : A → ℕ) → bag w g.items g.block.cell ≡ bag w h.items h.block.cell + w item
  pub compare : g.compare ≡ h.compare
  pub kept : h.items + 1 < h.size → (g.block.length ≡ h.block.length) × (g.size ≡ h.size)
  pub whole : h.block.length ≡ h.size → g.block.length ≡ g.size

-- The next item fits the block, or the block will be doubled.
abbrev pub HasRoom : {A : Type 0} → Heap A → Type 0
HasRoom h = (h.items + 1 < h.block.length) ⊎ ((h.size ≤ h.items + 1) × (0 < h.size))

-- The doubled block holds the same items.
abbrev grown : {A : Type 0} → Heap A → Heap A
grown h = record h { block = realloc_block (h.size * 2) h.block; size = h.size * 2 }

module _ {A : Type 0} {Fit : A → Type 0} {rank : A → ℕ} where
  place-start :
      (h : Heap A) (item : A)
      → IsHeap Fit rank h
      → Fit item
      → UpInv Fit rank
          (h.items + 1)
          (filled (stored h (h.items + 1) item) (h.items + 1) item)
          (h.items + 1)
  place-start h item v fit = record {
    inside = omega arith;
    live = λ c p q. elim (Bool-cases (c == h.items + 1)) [
      | inl here ↦ (item, rw here, fit)
      | inr off ↦ let (x, held, good) = v.ordered.live c p (ground arith) in (x, rw off held, good)
    ];
    order = λ c p q off. ground (arith, v.ordered.order c);
    bridged = λ c q e p. absurd (omega arith);
  }

  place-end :
      (h g : Heap A) (j : ℕ) (item : A)
      → IsHeap Fit rank h
      → h.items + 1 < h.block.length
      → Settled Fit rank item
          (stored (record h { items = h.items + 1 }) (h.items + 1) item)
          (h.items + 1)
          j
          g
      → Pushed Fit rank h item (stored g j item)
  place-end h g j item v room s = record {
    heap = record {
      room = omega (arith, s.shape.items, s.shape.length);
      sized = omega (arith, v.sized, s.shape.size, s.shape.length);
      ordered = subst (λ n. IsOrdered Fit rank n (filled g j item)) (sym s.shape.items) s.ordered;
    };
    items = s.shape.items;
    bag_of = λ w.
        ap (λ n. bag w n (filled g j item)) s.shape.items
        ∙ (s.same w
            ∙ (bag-snoc w h.items _
                ∙ ap₂ ◌+◌ (bag-cong w h.items _ _ (λ i p q. ground arith)) (ground arith)));
    compare = s.shape.compare;
    kept = λ _. (s.shape.length, s.shape.size);
    whole = λ e. s.shape.length ∙ e ∙ sym s.shape.size;
  }

  -- With a cell to spare the item is put in its place.
  place_lem :
      (h : Heap A) (item : A)
      → Agrees Fit rank h.compare
      → IsHeap Fit rank h
      → Fit item
      → h.items + 1 < h.block.length
      → Returns (λ _. Pushed Fit rank h item) (place item h)
  unfolding place
  place_lem h item agrees v fit room =
      let last = h.items + 1 in
      let h' : Heap A = record h { items = last } in
      let start = stored h' last item in
      rw (store-ok h' last item room) (
        Returns-bind
          (up_loop_lem (last + 1) start last item agrees fit room (place-start h item v fit)
            (omega arith))
          λ j g s.
            rw (store-ok g j item (ground (arith, s.shape, s.inside)))
              (returns (place-end h g j item v room s)))

  grown-cell :
      (h : Heap A) (i : ℕ)
      → IsHeap Fit rank h
      → i ≤ h.items
      → (grown h).block.cell i ≡ h.block.cell i
  grown-cell h i v q = ground (arith, v)

  grown-IsHeap : (h : Heap A) → IsHeap Fit rank h → IsHeap Fit rank (grown h)
  grown-IsHeap h v = record {
    room = omega (arith, v.room, v.sized);
    sized = omega arith;
    ordered = record {
      live = λ i p q. rw (grown-cell h i v q) (v.ordered.live i p q);
      order = λ c p q.
          rw (grown-cell h c v q, grown-cell h (c / 2) v (omega arith)) (v.ordered.order c p q);
    };
  }

  grown-Pushed :
      (h g : Heap A) (item : A)
      → IsHeap Fit rank h
      → h.size ≤ h.items + 1
      → Pushed Fit rank (grown h) item g
      → Pushed Fit rank h item g
  grown-Pushed h g item v full done = record {
    heap = done.heap;
    items = done.items;
    bag_of = λ w. omega (
      arith,
      done.bag_of w,
      bag-cong w h.items h.block.cell (grown h).block.cell (λ i p q. grown-cell h i v q),
    );
    compare = done.compare;
    kept = λ p. absurd (omega arith);
    whole = λ _. done.whole refl;
  }

  -- heap_push on a heap with room, or with memory to double it, adds exactly the item and keeps
  -- the heap order.
  pub heap_push_lem :
      (h : Heap A) (item : A)
      → Agrees Fit rank h.compare
      → IsHeap Fit rank h
      → Fit item
      → HasRoom h
      → Returns (λ r g. (r ≡ 0) × Pushed Fit rank h item g) (heap_push true item h)
  unfolding heap_push grow
  heap_push_lem h item agrees v fit room = elim (Bool-cases (leb h.size (h.items + 1))) [
    | inl full ↦ rw full (
        Returns-bind (place_lem (grown h) item agrees (grown-IsHeap h v) fit (ground (arith, v)))
          λ _ g done. returns (refl, grown-Pushed h g item v (ground arith) done))
    | inr wide ↦ rw wide (
        Returns-bind (place_lem h item agrees v fit (ground (arith, room)))
          λ _ g done. returns (refl, done))
  ]

-- When `size` promises more cells than the block has, heap_push writes behind the block.
pub heap_push-overflow :
    {A : Type 0} (h : Heap A) (item : A) (granted : Bool)
    → h.block.length ≤ h.items + 1
    → h.items + 1 < h.size
    → heap_push granted item h ≡ fault
unfolding heap_push
heap_push-overflow h item granted short promised = ground arith
