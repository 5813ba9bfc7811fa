-- ===== src/Heap/Overflow.antt =====
-- What follows from heap_pop_min leaving `size` alone when it makes the block smaller.
use shproject.Prelude.{ℕ, ◌+◌, ◌/◌, ◌<◌, ◌≡◌, subst, sym, inl, true, List, [], ◌∷◌, arith, length}
use native.Mathlib.Decide.{dec_lt}
use shproject.Prelude.Outcome.{Prog, fault, pure, ◌>>◌, Returns-inv}
use shproject.Heap.{Heap, initial_size, heap_push, heap_pop_min}
use shproject.Heap.Order.{Agrees, IsHeap}
use shproject.Heap.Push.{heap_push_lem, heap_push-overflow}
use shproject.Heap.Pop.{heap_pop_min-shrink}

-- heap_push for each item in turn, all requests granted.
unfoldable pub push_all : {A : Type 0} → List A → Prog (Heap A) (Unit {0})
push_all [] = pure tt
push_all (x ∷ xs) = heap_push true x >> push_all xs

abbrev pub AllFit : {A : Type 0} → (A → Type 0) → List A → Type 0
AllFit Fit [] = Unit {0}
AllFit Fit (x ∷ xs) = Fit x × AllFit Fit xs

module _ {A : Type 0} {Fit : A → Type 0} {rank : A → ℕ} where
  -- A heap whose block is shorter than `size` says takes items up to the end of the block; the next
  -- push writes behind it.
  pub push_all-overflow :
      (xs : List A) (h : Heap A)
      → Agrees Fit rank h.compare
      → IsHeap Fit rank h
      → AllFit Fit xs
      → h.block.length < h.size
      → h.items + length xs ≡ h.block.length
      → push_all xs h ≡ fault
  unfolding push_all
  push_all-overflow [] h agrees v fit short e = absurd (omega (arith, v.room))
  push_all-overflow (x ∷ xs) h agrees v fit short e = elim (dec_lt (h.items + 1) h.block.length) [
    | no full ↦ rw (heap_push-overflow h x true (omega arith) (omega (arith, v.room)))
    | yes room ↦
        let (r, g, run, both) = Returns-inv (heap_push_lem h x agrees v fit.0 (inl room)) in
        let done = both.1 in
        let kept = done.kept (omega (arith, v.sized)) in
        rw run (
          push_all-overflow xs g (subst (Agrees Fit rank) (sym done.compare) agrees) done.heap fit.1
            (omega (arith, kept)) (omega (arith, kept, done.items)))
  ]

  -- After a pop that made the block smaller, as many pushes as the old `size` still allows write
  -- behind the block: the heap then holds half as many items as `size` says, and `size` is not
  -- reached.
  pub pop_push_all-overflow :
      (xs : List A) (h : Heap A)
      → Agrees Fit rank h.compare
      → IsHeap Fit rank h
      → AllFit Fit xs
      → 0 < h.items
      → h.items < h.size / 4
      → initial_size < h.size
      → h.items + length xs ≡ h.size / 2 + 1
      → (heap_pop_min true >> push_all xs) h ≡ fault
  pop_push_all-overflow xs h agrees v fit p low big e =
      let (r, g, run, (heap, items, size', size, compare)) =
        Returns-inv (heap_pop_min-shrink h agrees v p low big) in
      rw run (
        push_all-overflow xs g (subst (Agrees Fit rank) (sym compare) agrees) heap fit (omega arith)
          (omega arith))
