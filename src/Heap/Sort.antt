-- ===== src/Heap/Sort.antt =====
-- A run of pushes and the run of pops behind it, as test/test_heap.c has them, at any length.
use shproject.Prelude.{
  ℕ, ◌+◌, ◌≤◌, ◌<◌, ◌≡◌, refl, sym, subst, Bool, true, inr, inl, Option, none, some, List, [], ◌∷◌,
  arith, ltb, length, if◌then◌else◌,
}
use native.Mathlib.Decide.{dec_lt}
use shproject.Prelude.Outcome.{
  Prog, pure, ◌>>=◌, ◌>>◌, Returns, returns, Returns-bind, Returns-mono,
}
use shproject.Prelude.Int.{ℤ}
use shproject.Heap.{Heap, heap_init, heap_pop_min}
use shproject.Heap.Order.{bag, bag-zero, weight, key, Agrees, IsHeap}
use shproject.Heap.Push.{HasRoom, heap_push_lem}
use shproject.Heap.Pop.{heap_pop_min_lem}
use shproject.Heap.Overflow.{push_all, AllFit}

-- heap_pop_min, once for each answer of realloc, up to a NULL.
unfoldable pub pop_all : {A : Type 0} → List Bool → Prog (Heap A) (List A)
pop_all [] = pure []
pop_all (granted ∷ grants) = do
  item ← heap_pop_min granted
  elim item [ none ↦ pure [] | some x ↦ (do xs ← pop_all grants; pure (x ∷ xs)) ]

module _ {A : Type 0} where
  abbrev pub total : (A → ℕ) → List A → ℕ
  total w [] = 0
  total w (x ∷ xs) = w x + total w xs

  -- The same items, each as often.
  abbrev pub IsRearranged : (xs ys : List A) → Type 0
  IsRearranged xs ys = (w : A → ℕ) → total w ys ≡ total w xs

module _ {A : Type 0} (rank : A → ℕ) where
  abbrev pub AreAbove : ℕ → List A → Type 0
  AreAbove n [] = Unit {0}
  AreAbove n (x ∷ xs) = (n ≤ rank x) × AreAbove n xs

  abbrev pub IsSorted : List A → Type 0
  IsSorted [] = Unit {0}
  IsSorted (x ∷ xs) = AreAbove (rank x) xs × IsSorted xs

  -- 1 for an item that ranks below `n`.
  abbrev below : ℕ → A → ℕ
  below n x = if ltb (rank x) n then 1 else 0

  none_below : (n : ℕ) (xs : List A) → total (below n) xs ≡ 0 → AreAbove n xs
  none_below n [] e = tt
  none_below n (x ∷ xs) e = (ground arith, none_below n xs (omega arith))

  weight_below : (k : ℕ) (c : Option A) → k ≤ weight rank c → weight (below k) c ≡ 0
  weight_below k none high = refl
  weight_below k (some x) high = ground arith

  bag-below :
      (n k : ℕ) (f : ℕ → Option A)
      → ((i : ℕ) → 0 < i → i ≤ n → k ≤ key rank f i)
      → bag (below k) n f ≡ 0
  bag-below n k f high = bag-zero (below k) n f (λ i p q. weight_below k (f i) (high i p q))

module _ {A : Type 0} {Fit : A → Type 0} {rank : A → ℕ} where
  -- Pops from a heap give all its items, sorted.
  pop_all_lem :
      (grants : List Bool) (h : Heap A)
      → Agrees Fit rank h.compare
      → IsHeap Fit rank h
      → length grants ≡ h.items
      → Returns
          (λ ys g.
            (g.items ≡ 0)
            × IsSorted rank ys
            × ((w : A → ℕ) → total w ys ≡ bag w h.items h.block.cell))
          (pop_all grants h)
  unfolding pop_all
  pop_all_lem [] h agrees v e =
      returns
        (sym e, tt, λ w. sym (bag-zero w h.items h.block.cell (λ i p q. absurd (omega arith))))
  pop_all_lem (granted ∷ grants) h agrees v e =
      Returns-bind (heap_pop_min_lem h granted agrees v (omega arith)) λ r g (x, is, q). rw is (
        Returns-bind
          (pop_all_lem grants g (subst (Agrees Fit rank) (sym q.compare) agrees) q.heap
            (omega (arith, q.items)))
          (λ ys g' (empty, sorted, same).
            let zero_below = bag-below rank h.items (rank x) h.block.cell q.least in
            returns (
              empty,
              (
                none_below rank (rank x) ys (
                    omega (
                      arith,
                      zero_below,
                      same (below rank (rank x)),
                      q.bag_of (below rank (rank x)),
                    )),
                sorted,
              ),
              λ w. omega (arith, same w, q.bag_of w),
            )))

  -- Pushes to a heap whose block is as long as `size` says.
  push_all_lem :
      (xs : List A) (h : Heap A)
      → Agrees Fit rank h.compare
      → IsHeap Fit rank h
      → AllFit Fit xs
      → h.block.length ≡ h.size
      → Returns
          (λ _ g.
            IsHeap Fit rank g
            × Agrees Fit rank g.compare
            × (g.items ≡ h.items + length xs)
            × ((w : A → ℕ) → bag w g.items g.block.cell ≡ bag w h.items h.block.cell + total w xs))
          (push_all xs h)
  unfolding push_all
  push_all_lem [] h agrees v fit whole = returns (v, agrees, omega arith, λ w. omega arith)
  push_all_lem (x ∷ xs) h agrees v (fit, fits) whole =
      let room : HasRoom h = elim (dec_lt (h.items + 1) h.block.length) [
        | yes wide ↦ inl wide
        | no full ↦ inr (omega arith, omega (arith, v.room))
      ] in
      Returns-bind (heap_push_lem h x agrees v fit room) λ r g (done, q).
        Returns-mono
          (push_all_lem xs g (subst (Agrees Fit rank) (sym q.compare) agrees) q.heap fits
            (q.whole whole))
          (λ _ g' (heap, agrees', items, same).
            (heap, agrees', omega (arith, q.items), λ w. omega (arith, same w, q.bag_of w)))

  -- The heap sorts: on a new heap, with memory granted to the pushes, any number of pushes and then
  -- as many pops give the items that were pushed, each as often, lowest rank first, and leave the heap
  -- empty, whether or not realloc makes the block smaller; no access is outside the block.
  pub push_all-pop_all :
      (compare : A → A → ℤ) (xs : List A) (grants : List Bool)
      → Agrees Fit rank compare
      → AllFit Fit xs
      → length grants ≡ length xs
      → Returns
          (λ ys g. (g.items ≡ 0) × IsSorted rank ys × IsRearranged xs ys)
          ((push_all xs >> pop_all grants) (heap_init true compare).0)
  unfolding heap_init
  push_all-pop_all compare xs grants agrees fit e =
      let h : Heap A = (heap_init true compare).0 in
      let new : IsHeap Fit rank h = record {
        room = omega arith;
        sized = omega arith;
        ordered = record {
          live = λ i p q. absurd (omega arith);
          order = λ c p q. absurd (omega arith);
        };
      } in
      Returns-bind (push_all_lem xs h agrees new fit refl) λ _ g (heap, agrees', items, same).
        Returns-mono (pop_all_lem grants g agrees' heap (omega (arith, e, items)))
          (λ ys g' (empty, sorted, same'). (
            empty,
            sorted,
            λ w.
                let start = bag-zero w h.items h.block.cell (λ i p q. absurd (omega arith)) in
                omega (arith, same' w, same w, start),
          ))
