-- ===== src/Heap/Pop.antt =====
-- heap_min and heap_pop_min.
use shproject.Prelude.{
  ℕ, zero, suc, ◌+◌, ◌-◌, ◌/◌, ◌≤◌, ◌<◌, ◌≡◌, refl, sym, ap, subst, Bool, true, false, ◌&&◌, inl,
  inr, Option, none, some, arith, ltb, ◌==◌, Bool-cases,
}
use shproject.Prelude.Outcome.{ok, Returns, returns, Returns-bind}
use shproject.Heap.{
  Heap, initial_size, update, realloc_block, heap_min, take_root, shrink, heap_pop_min,
}
use shproject.Heap.Order.{
  bag, bag-cong, bag-snoc, bag-update, Agrees, key, IsOrdered, IsHeap, root_least,
}
use shproject.Heap.Cells.{filled, stored, load-ok, store-ok, Settled}
use shproject.Heap.Down.{DownInv, down_loop_lem}

-- `x` was a least item of `h`, and `g` is a heap of the others, with the same comparator.
pub record Popped {A : Type 0} (Fit : A → Type 0) (rank : A → ℕ) (h : Heap A) (x : A) (g : Heap A)
    : Type 0 where
  pub heap : IsHeap Fit rank g
  pub items : g.items + 1 ≡ h.items
  pub fit : Fit x
  pub root : h.block.cell 1 ≡ some x
  pub bag_of : (w : A → ℕ) → bag w g.items g.block.cell + w x ≡ bag w h.items h.block.cell
  pub least : (i : ℕ) → 0 < i → i ≤ h.items → rank x ≤ key rank h.block.cell i
  pub compare : g.compare ≡ h.compare
  pub size : g.size ≡ h.size

-- The heap when the loop starts: the last item stands in the root as well.
abbrev opened : {A : Type 0} → Heap A → A → Heap A
opened h last = record (stored h 1 last) { items = h.items - 1 }

-- The last item in the root, and one cell less: the old root is gone.
opened-bag :
    {A : Type 0} (w : A → ℕ) (n : ℕ) (f : ℕ → Option A) (x last : A)
    → f 1 ≡ some x
    → f (n + 1) ≡ some last
    → bag w n (update (update f 1 (some last)) 1 (some last)) + w x ≡ bag w (n + 1) f
opened-bag w zero f x last e e' = rw bag-snoc (ground arith)
opened-bag w (suc m) f x last e e' = ground (
  arith,
  bag-snoc w (suc m) f,
  bag-update w (suc m) f 1 (some last),
  bag-update w (suc m) (update f 1 (some last)) 1 (some last),
)

module _ {A : Type 0} {Fit : A → Type 0} {rank : A → ℕ} where
  opened-DownInv :
      (h : Heap A) (last : A)
      → IsHeap Fit rank h
      → 0 < h.items
      → h.block.cell h.items ≡ some last
      → Fit last
      → DownInv Fit rank (opened h last) 1 last
  opened-DownInv h last v p e fit = record {
    spare = omega (arith, v.room);
    inside = omega arith;
    fit = fit;
    live = λ c pc qc. elim (Bool-cases (c == 1)) [
      | inl root ↦ (last, rw root, fit)
      | inr off ↦ let (x, held, good) = v.ordered.live c pc (omega arith) in (x, rw off held, good)
    ];
    order = λ c pc qc off. ground (arith, v.ordered.order c);
    bridged = λ c qc e' p'. absurd (omega arith);
    stale = ground arith;
  }

  taken :
      (h g : Heap A) (j : ℕ) (x last : A)
      → IsHeap Fit rank h
      → 0 < h.items
      → h.block.cell 1 ≡ some x
      → Fit x
      → h.block.cell h.items ≡ some last
      → Settled Fit rank last (opened h last) 1 j g
      → Popped Fit rank h x (stored g j last)
  taken h g j x last v p e fit e' s = record {
    heap = record {
      room = omega (arith, v.room, s.shape.items, s.shape.length);
      sized = omega (arith, v.sized, s.shape.size, s.shape.length);
      ordered = subst (λ n. IsOrdered Fit rank n (filled g j last)) (sym s.shape.items) s.ordered;
    };
    items = omega (arith, s.shape.items);
    fit = fit;
    root = e;
    bag_of = λ w. taken-bag w;
    least = λ i pi qi. ground (arith, root_least Fit rank h i v pi qi);
    compare = s.shape.compare;
    size = s.shape.size;
  }
    where
      whole : h.items ≡ h.items - 1 + 1
      whole = omega arith

      taken-bag : (w : A → ℕ) → bag w g.items (filled g j last) + w x ≡ bag w h.items h.block.cell
      taken-bag w = omega (
        arith,
        ap (λ n. bag w n (filled g j last)) s.shape.items,
        s.same w,
        opened-bag w (h.items - 1) h.block.cell x last e
            (subst (λ n. h.block.cell n ≡ some last) whole e'),
        ap (λ n. bag w n h.block.cell) whole,
      )

  -- On a heap that is not empty the root is taken out, and the rest is a heap again.
  take_root_lem :
      (h : Heap A)
      → Agrees Fit rank h.compare
      → IsHeap Fit rank h
      → 0 < h.items
      → Returns (Popped Fit rank h) (take_root h)
  unfolding take_root
  take_root_lem h agrees v p =
      let (x, e, fit) = v.ordered.live 1 (omega arith) p in
      let (last, e', fit') = v.ordered.live h.items p (omega arith) in
      let inside : 1 < h.block.length = omega (arith, v.room) in
      rw
        (
          load-ok h 1 x inside e,
          load-ok h h.items last v.room e',
          store-ok h 1 last inside,
          load-ok (opened h last) 1 last inside refl,
        )
        (Returns-bind
          (down_loop_lem h.items (opened h last) 1 last agrees (opened-DownInv h last v p e' fit')
            (omega arith) p)
          λ j g s.
            rw (store-ok g j last (ground (arith, s.shape, s.inside)))
              (returns (taken h g j x last v p e fit e' s)))

  shrunk-cell :
      (h : Heap A) (i : ℕ)
      → IsHeap Fit rank h
      → h.items + 1 < h.size / 4
      → i ≤ h.items
      → (realloc_block (h.size / 2) h.block).cell i ≡ h.block.cell i
  shrunk-cell h i v p q = ground (arith, v)

  shrunk-Popped :
      (h g : Heap A) (x : A)
      → Popped Fit rank h x g
      → g.items + 1 < g.size / 4
      → Popped Fit rank h x (record g { block = realloc_block (g.size / 2) g.block })
  shrunk-Popped h g x done p = record {
    heap = record {
      room = omega arith;
      sized = omega arith;
      ordered = record {
        live = λ i pi q. rw (cell i q) (done.heap.ordered.live i pi q);
        order =
            λ c pc q. rw (cell c q, cell (c / 2) (omega arith)) (done.heap.ordered.order c pc q);
      };
    };
    items = done.items;
    fit = done.fit;
    root = done.root;
    bag_of = λ w. rw (bag-cong w g.items g.block.cell _ (λ i _ q. cell i q)) (done.bag_of w);
    least = done.least;
    compare = done.compare;
    size = done.size;
  }
    where
      cell : (i : ℕ) → i ≤ g.items → (realloc_block (g.size / 2) g.block).cell i ≡ g.block.cell i
      cell i q = shrunk-cell g i done.heap p q

  shrink-Popped :
      (h g : Heap A) (x : A) (granted : Bool)
      → Popped Fit rank h x g
      → Returns (λ _. Popped Fit rank h x) (shrink granted g)
  unfolding shrink
  shrink-Popped h g x granted done =
      elim (Bool-cases (ltb (g.items + 1) (g.size / 4) && ltb initial_size g.size)) [
        | inl low ↦ elim (Bool-cases granted) [
          | inl yes' ↦ rw (low, yes') (returns (shrunk-Popped h g x done (ground arith)))
          | inr no' ↦ rw (low, no') (returns done)
        ]
        | inr high ↦ rw high (returns done)
      ]

  -- heap_pop_min on a heap that is not empty returns a least item, and leaves a heap of exactly the
  -- others, whether or not the block could be made smaller.
  pub heap_pop_min_lem :
      (h : Heap A) (granted : Bool)
      → Agrees Fit rank h.compare
      → IsHeap Fit rank h
      → 0 < h.items
      → Returns (λ r g. (x : A) × (r ≡ some x) × Popped Fit rank h x g) (heap_pop_min granted h)
  unfolding heap_pop_min
  heap_pop_min_lem h granted agrees v p =
      let busy : (h.items == 0) ≡ false = ground arith in
      rw busy (
        Returns-bind (take_root_lem h agrees v p) λ x g done.
          Returns-bind (shrink-Popped h g x granted done) λ _ g' after. returns (x, refl, after))

  -- heap_min returns what heap_pop_min would, and changes nothing.
  pub heap_min_lem :
      (h : Heap A)
      → IsHeap Fit rank h
      → 0 < h.items
      → (x : A) × (heap_min h ≡ ok (some x) h)
        × Fit x
        × (h.block.cell 1 ≡ some x)
        × ((i : ℕ) → 0 < i → i ≤ h.items → rank x ≤ key rank h.block.cell i)
  unfolding heap_min
  heap_min_lem h v p =
      let (x, e, fit) = v.ordered.live 1 (omega arith) p in
      let busy : (h.items == 0) ≡ false = ground arith in
      (
        x,
        rw (busy, load-ok h 1 x (omega (arith, v.room)) e),
        fit,
        e,
        λ i pi qi. ground (arith, root_least Fit rank h i v pi qi),
      )

  -- The pop that makes the block smaller leaves `size` at its old value.
  pub heap_pop_min-shrink :
      (h : Heap A)
      → Agrees Fit rank h.compare
      → IsHeap Fit rank h
      → 0 < h.items
      → h.items < h.size / 4
      → initial_size < h.size
      → Returns
          (λ _ g.
            IsHeap Fit rank g
            × (g.items + 1 ≡ h.items)
            × (g.block.length ≡ h.size / 2)
            × (g.size ≡ h.size)
            × (g.compare ≡ h.compare))
          (heap_pop_min true h)
  unfolding heap_pop_min shrink
  heap_pop_min-shrink h agrees v p low big =
      let busy : (h.items == 0) ≡ false = ground arith in
      rw busy (
        Returns-bind (take_root_lem h agrees v p) λ x g done.
          let test : (ltb (g.items + 1) (g.size / 4) && ltb initial_size g.size) ≡ true =
            ground (arith, done.items, done.size) in
          rw test (
            let after = shrunk-Popped h g x done (ground arith) in
            returns (
              after.heap,
              after.items,
              ap (λ (n : ℕ). n / 2) done.size,
              after.size,
              after.compare,
            )))

-- heap_min and heap_pop_min return NULL on an empty heap and change nothing.
pub pop_min-empty :
    {A : Type 0} (h : Heap A) (granted : Bool)
    → h.items ≡ 0
    → (heap_min h ≡ ok none h) × (heap_pop_min granted h ≡ ok none h)
unfolding heap_min heap_pop_min
pop_min-empty h granted e = (ground arith, ground arith)
