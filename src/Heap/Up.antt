-- ===== src/Heap/Up.antt =====
-- The `while` of heap_push: the path from the new cell to the root.
use shproject.Prelude.{
  ℕ, zero, suc, ◌/◌, ◌≤◌, ◌<◌, ◌≡◌, false, inl, inr, Option, some, arith, ltb, ◌==◌, Bool-cases,
}
use shproject.Prelude.Outcome.{Returns, returns, Returns-mono}
use shproject.Heap.{Heap, up_loop}
use shproject.Heap.Cells.{filled, stored, load-ok, store-ok, Settled, move-Settled, rest-Settled}
use shproject.Heap.Order.{Agrees, IsLive, key}

module _ {A : Type 0} (Fit : A → Type 0) (rank : A → ℕ) where
  -- Heap order but for the edge above cell `i`, and from the parent of `i` to its children.
  pub record UpInv (n : ℕ) (f : ℕ → Option A) (i : ℕ) : Type 0 where
    pub inside : (0 < i) × (i ≤ n)
    pub live : (c : ℕ) → 0 < c → c ≤ n → IsLive Fit f c
    pub order : (c : ℕ) → 1 < c → c ≤ n → (c == i) ≡ false → key rank f (c / 2) ≤ key rank f c
    pub bridged : (c : ℕ) → c ≤ n → c / 2 ≡ i → 1 < i → key rank f (i / 2) ≤ key rank f c

module _ {A : Type 0} {Fit : A → Type 0} {rank : A → ℕ} where
  -- One round: the parent comes down, and the loop stands at its place.
  rise-UpInv :
      (n : ℕ) (h : Heap A) (i : ℕ) (item above : A)
      → UpInv Fit rank n (filled h i item) i
      → 1 < i
      → h.block.cell (i / 2) ≡ some above
      → Fit above
      → Fit item
      → rank item < rank above
      → UpInv Fit rank n (filled (stored h i above) (i / 2) item) (i / 2)
  rise-UpInv n h i item above v p e fit fit' r = record {
    inside = omega arith;
    live = λ c pc qc. elim (Bool-cases (c == i / 2)) [
      | inl here ↦ (item, rw here, fit')
      | inr off ↦ elim (Bool-cases (c == i)) [
        | inl child ↦ (above, rw (off, child), fit)
        | inr else' ↦ let (x, held, good) = v.live c pc qc in (x, ground arith, good)
      ]
    ];
    order = λ c pc qc off. ground (arith, v.order c, v.bridged c);
    bridged = λ c qc up pi. ground (arith, v.order (i / 2), v.order c);
  }

  settle :
      (h : Heap A) (i : ℕ) (item : A)
      → UpInv Fit rank h.items (filled h i item) i
      → h.items < h.block.length
      → (1 < i → key rank (filled h i item) (i / 2) ≤ rank item)
      → Settled Fit rank item h i i h
  settle h i item v room edge =
      rest-Settled h i item (omega (arith, v.inside))
        (record { live = v.live; order = λ c p q. ground (arith, v.order c, edge) })

  -- The loop returns: no cell outside the block is touched, and `current` rounds are enough.
  pub up_loop_lem :
      (k : ℕ) (h : Heap A) (i : ℕ) (item : A)
      → Agrees Fit rank h.compare
      → Fit item
      → h.items < h.block.length
      → UpInv Fit rank h.items (filled h i item) i
      → i < k
      → Returns (Settled Fit rank item h i) (up_loop k i item h)
  unfolding up_loop
  up_loop_lem zero h i item agrees fit room v fuel = absurd (omega arith)
  up_loop_lem (suc k) h i item agrees fit room v fuel = elim (Bool-cases (ltb 1 i)) [
    | inl inner ↦
        let (above, held', good) = v.live (i / 2) (ground arith) (ground arith) in
        let held : h.block.cell (i / 2) ≡ some above = ground arith in
        rw (inner, load-ok h (i / 2) above (ground arith) held, agrees.above above item good fit)
          (elim (Bool-cases (ltb (rank item) (rank above))) [
            | inl higher ↦
                rw (higher, store-ok h i above (ground arith))
                  (Returns-mono
                    (up_loop_lem k (stored h i above) (i / 2) item agrees fit room
                      (rise-UpInv h.items h i item above v (ground arith) held good fit
                        (ground arith))
                      (ground arith))
                    λ j g s.
                      move-Settled h g i (i / 2) j item above v.inside (ground (arith, v.inside))
                        (ground arith) held s)
            | inr done ↦ rw done (returns (settle h i item v room (λ _. ground arith)))
          ])
    | inr top ↦ rw top (returns (settle h i item v room (λ p. ground arith)))
  ]
