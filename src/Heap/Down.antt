-- ===== src/Heap/Down.antt =====
-- The `while` of heap_pop_min: the path from the root to the leaves.
use shproject.Prelude.{
  ℕ, zero, suc, ◌+◌, ◌*◌, ◌/◌, ◌≤◌, ◌<◌, ◌≡◌, refl, ◌⊎◌, true, false, inl, inr, some, arith, ltb,
  leb, ◌==◌, if◌then◌else◌, Bool-cases,
}
use native.Mathlib.Decide.{dec_le}
use shproject.Prelude.Outcome.{ok, Returns, returns, Returns-mono}
use shproject.Heap.{Heap, left_first, down_loop}
use shproject.Heap.Cells.{filled, stored, load-ok, store-ok, Settled, move-Settled, rest-Settled}
use shproject.Heap.Order.{Agrees, IsLive, key}

module _ {A : Type 0} (Fit : A → Type 0) (rank : A → ℕ) where
  -- The cells of `h` with `item` at `i`: in order but for the edges below `i`, and from the parent
  -- of `i` to its children. The cell behind the last live one still holds `item`.
  pub record DownInv (h : Heap A) (i : ℕ) (item : A) : Type 0 where
    pub spare : h.items + 1 < h.block.length
    pub inside : (0 < i) × (i ≤ h.items + 1)
    pub fit : Fit item
    pub live : (c : ℕ) → 0 < c → c ≤ h.items → IsLive Fit (filled h i item) c
    pub order :
        (c : ℕ)
        → 1 < c
        → c ≤ h.items
        → (c / 2 == i) ≡ false
        → key rank (filled h i item) (c / 2) ≤ key rank (filled h i item) c
    pub bridged :
        (c : ℕ)
        → c ≤ h.items
        → c / 2 ≡ i
        → 1 < i
        → key rank (filled h i item) (i / 2) ≤ key rank (filled h i item) c
    pub stale : filled h i item (h.items + 1) ≡ some item

  -- `x` in cell `j` is a least child of cell `i`, and ranks below `item`.
  record Child (h : Heap A) (i : ℕ) (item : A) (j : ℕ) (x : A) : Type 0 where
    under : (j / 2 ≡ i) × (0 < i) × (j ≤ h.items)
    held : h.block.cell j ≡ some x
    good : Fit x
    lower : rank x < rank item
    least : (c : ℕ) → c ≤ h.items → c / 2 ≡ i → rank x ≤ key rank h.block.cell c

no_lower :
    {A : Type 0} (rank : A → ℕ) (h : Heap A) (i c : ℕ) (item l r : A)
    → (i * 2 + 1 ≤ h.items) ⊎ ((i * 2 ≡ h.items) × (r ≡ item))
    → h.block.cell (i * 2) ≡ some l
    → h.block.cell (i * 2 + 1) ≡ some r
    → c ≤ h.items
    → c / 2 ≡ i
    → rank item ≤ rank l
    → rank item ≤ rank r
    → rank item ≤ key rank h.block.cell c
no_lower rank h i c item l r which held held' p e first second = elim (Bool-cases (c == i * 2)) [
  | inl left ↦ ground arith
  | inr off ↦ let right : c ≡ i * 2 + 1 = ground arith in ground arith
]

module _ {A : Type 0} {Fit : A → Type 0} {rank : A → ℕ} where
  sink-DownInv :
      (h : Heap A) (i j : ℕ) (item x : A)
      → DownInv Fit rank h i item
      → Child Fit rank h i item j x
      → DownInv Fit rank (stored h i x) j item
  sink-DownInv h i j item x v ch = record {
    spare = v.spare;
    inside = omega (arith, ch.under);
    fit = v.fit;
    live = λ c p q. elim (Bool-cases (c == j)) [
      | inl here ↦ (item, rw here, v.fit)
      | inr off ↦ elim (Bool-cases (c == i)) [
        | inl up ↦ (x, rw (off, up), ch.good)
        | inr far ↦ let (y, held, good) = v.live c p q in (y, ground arith, good)
      ]
    ];
    order = λ c p q off.
        ground (arith, ch.under, ch.held, ch.lower, ch.least c, v.order c, v.bridged j);
    bridged = λ c q e p. ground (arith, ch.under, ch.held, v.order c);
    stale = ground (arith, ch.under, v.stale);
  }

  sink-Settled :
      (h g : Heap A) (i j k : ℕ) (item x : A)
      → Child Fit rank h i item j x
      → Settled Fit rank item (stored h i x) j k g
      → Settled Fit rank item h i k g
  sink-Settled h g i j k item x ch s =
      move-Settled h g i j k item x (omega (arith, ch.under)) (omega (arith, ch.under))
        (ground (arith, ch.under)) ch.held s

  rest :
      (h : Heap A) (i : ℕ) (item : A)
      → DownInv Fit rank h i item
      → ((c : ℕ) → c ≤ h.items → c / 2 ≡ i → rank item ≤ key rank h.block.cell c)
      → Settled Fit rank item h i i h
  rest h i item v least =
      rest-Settled h i item (omega (arith, v.inside, v.spare))
        (record { live = v.live; order = λ c p q. ground (arith, v.inside, v.order c, least c) })

  left-cell :
      (h : Heap A) (i : ℕ) (item : A)
      → DownInv Fit rank h i item
      → i * 2 ≤ h.items
      → IsLive Fit h.block.cell (i * 2)
  left-cell h i item v q =
      let (l, held, good) = v.live (i * 2) (omega (arith, v.inside)) q in
      (l, ground (arith, v.inside), good)

  -- The right child, or the stale cell behind the last item.
  right-cell :
      (h : Heap A) (i : ℕ) (item : A)
      → DownInv Fit rank h i item
      → i * 2 ≤ h.items
      → (r : A) × (h.block.cell (i * 2 + 1) ≡ some r)
        × Fit r
        × ((i * 2 + 1 ≤ h.items) ⊎ ((i * 2 ≡ h.items) × (r ≡ item)))
  right-cell h i item v q = elim (dec_le (i * 2 + 1) h.items) [
    | yes p ↦
        let (r, held, good) = v.live (i * 2 + 1) (omega arith) p in
        (r, ground (arith, v.inside), good, inl p)
    | no p ↦
        let e : i * 2 ≡ h.items = omega arith in
        (item, ground (arith, v.inside, v.stale), v.fit, inr (e, refl))
  ]

  -- The choice between two children that both rank below `item`, or of the left one alone.
  left-Child :
      (h : Heap A) (i : ℕ) (item l : A)
      → DownInv Fit rank h i item
      → i * 2 ≤ h.items
      → h.block.cell (i * 2) ≡ some l
      → Fit l
      → rank l < rank item
      → (i * 2 + 1 ≤ h.items → rank l ≤ key rank h.block.cell (i * 2 + 1))
      → Child Fit rank h i item (i * 2) l
  left-Child h i item l v q held good lower other = record {
    under = omega (arith, v.inside);
    held = held;
    good = good;
    lower = lower;
    least = λ c p e. elim (Bool-cases (c == i * 2)) [
      | inl left ↦ ground arith
      | inr off ↦ let right : c ≡ i * 2 + 1 = ground arith in ground (arith, other)
    ];
  }

  right-Child :
      (h : Heap A) (i : ℕ) (item l r : A)
      → DownInv Fit rank h i item
      → i * 2 + 1 ≤ h.items
      → h.block.cell (i * 2) ≡ some l
      → h.block.cell (i * 2 + 1) ≡ some r
      → Fit r
      → rank r < rank item
      → rank r ≤ rank l
      → Child Fit rank h i item (i * 2 + 1) r
  right-Child h i item l r v q held held' good lower first = record {
    under = omega (arith, v.inside);
    held = held';
    good = good;
    lower = lower;
    least = λ c p e. elim (Bool-cases (c == i * 2)) [
      | inl left ↦ ground arith
      | inr off ↦ let right : c ≡ i * 2 + 1 = ground arith in ground arith
    ];
  }

  -- The test of the two children, on a heap whose left child is `l`.
  left_first_lem :
      (h : Heap A) (i : ℕ) (item l r : A)
      → Agrees Fit rank h.compare
      → DownInv Fit rank h i item
      → Fit l
      → h.block.cell (i * 2 + 1) ≡ some r
      → Fit r
      → left_first h l (i * 2 + 1) h
        ≡ ok (if ltb h.items (i * 2 + 1) then true else ltb (rank l) (rank r)) h
  unfolding left_first
  left_first_lem h i item l r agrees v good held good' =
      elim (Bool-cases (ltb h.items (i * 2 + 1))) [
        | inl alone ↦ rw alone
        | inr two ↦ rw (
          two,
          load-ok h (i * 2 + 1) r (ground (arith, v.spare)) held,
          agrees.below l r good good',
        )
      ]

  -- The loop returns: every cell that it reads is in the block and holds an item, the one behind
  -- the last live cell included, and as many rounds as there were items are enough.
  pub down_loop_lem :
      (k : ℕ) (h : Heap A) (i : ℕ) (item : A)
      → Agrees Fit rank h.compare
      → DownInv Fit rank h i item
      → h.items < i + k
      → 0 < k
      → Returns (Settled Fit rank item h i) (down_loop k i item h)
  unfolding down_loop
  down_loop_lem zero h i item agrees v fuel some' = absurd (omega arith)
  down_loop_lem (suc k) h i item agrees v fuel some' = elim (Bool-cases (leb (i * 2) h.items)) [
    | inr leaf ↦ rw leaf (returns (rest h i item v (λ c p e. absurd (ground arith))))
    | inl inner ↦
        let q : i * 2 ≤ h.items = ground arith in
        let sink = λ (j : ℕ) (x : A) (ch : Child Fit rank h i item j x).
          Returns-mono
            (down_loop_lem k (stored h i x) j item agrees (sink-DownInv h i j item x v ch)
              (omega (arith, ch.under)) (omega (arith, ch.under)))
            (λ stop g s. sink-Settled h g i j stop item x ch s) in
        let (l, held, good) = left-cell h i item v q in
        let (r, held', good', which) = right-cell h i item v q in
        rw
          (inner, load-ok h (i * 2) l (omega (arith, v.spare)) held, agrees.above item l v.fit good)
          (elim (Bool-cases (ltb (rank l) (rank item))) [
            | inl lower ↦
                rw (lower, left_first_lem h i item l r agrees v good held' good')
                  (elim (Bool-cases
                    (if ltb h.items (i * 2 + 1) then true else ltb (rank l) (rank r))) [
                      | inl first ↦
                          rw (first, store-ok h i l (omega (arith, v.spare)))
                            (sink (i * 2) l (
                              left-Child h i item l v q held good (ground arith)
                                (λ p. ground arith)))
                      | inr second ↦
                          rw
                            (
                              second,
                              load-ok h (i * 2 + 1) r (omega (arith, v.spare)) held',
                              store-ok h i r (omega (arith, v.spare)),
                            )
                            (sink (i * 2 + 1) r (
                              right-Child h i item l r v (ground arith) held held' good'
                                (ground arith) (ground arith)))
                    ])
            | inr higher ↦
                rw
                  (
                    higher,
                    load-ok h (i * 2 + 1) r (omega (arith, v.spare)) held',
                    agrees.above item r v.fit good',
                  )
                  (elim (Bool-cases (ltb (rank r) (rank item))) [
                    | inl lower ↦
                        rw (lower, store-ok h i r (omega (arith, v.spare)))
                          (sink (i * 2 + 1) r (
                            right-Child h i item l r v (ground arith) held held' good'
                              (ground arith) (ground arith)))
                    | inr stop ↦ rw stop (
                        returns (
                          rest h i item v (λ c p e.
                            no_lower rank h i c item l r which held held' p e (ground arith)
                              (ground arith))))
                  ])
          ])
  ]
