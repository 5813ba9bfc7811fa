-- ===== src/Heap/Order.antt =====
-- What the array of util/heap.c has to satisfy: live cells, heap order, and the items it holds.
use shproject.Prelude.{ℕ, zero, suc, ◌+◌, ◌/◌, ◌≤◌, ◌<◌, ◌≡◌, refl, Option, none, some, arith, ltb}
use native.Mathlib.Numerals.{add-one}
use native.Mathlib.Decide.{dec_le}
use shproject.Prelude.Int.{ℤ, is_positive, is_negative}
use shproject.Heap.{Heap, update}

abbrev pub weight : {A : Type 0} → (A → ℕ) → Option A → ℕ
weight w none = 0
weight w (some x) = w x

-- The sum of `w` over the cells 1 to n.
pub bag : {A : Type 0} → (A → ℕ) → ℕ → (ℕ → Option A) → ℕ
bag w zero f = 0
bag w (suc n) f = bag w n f + weight w (f (suc n))

-- Two arrays hold the same items, as often, if all sums over their cells agree.
abbrev pub SameItems : {A : Type 0} → ℕ → (f g : ℕ → Option A) → Type 0
SameItems {A} n f g = (w : A → ℕ) → bag w n g ≡ bag w n f

module _ {A : Type 0} (w : A → ℕ) where
  pub bag-cong :
      (n : ℕ) (f g : ℕ → Option A) → ((i : ℕ) → 0 < i → i ≤ n → g i ≡ f i) → bag w n g ≡ bag w n f
  unfolding bag
  bag-cong zero f g same = refl
  bag-cong (suc n) f g same =
      ground (arith, bag-cong n f g (λ i p q. same i p (omega arith)), same (suc n))

  pub bag-update :
      (n : ℕ) (f : ℕ → Option A) (i : ℕ) (v : Option A)
      → 0 < i
      → i ≤ n
      → bag w n (update f i v) + weight w (f i) ≡ bag w n f + weight w v
  unfolding bag
  bag-update zero f i v p q = absurd (omega arith)
  bag-update (suc n) f i v p q = elim (dec_le i n) [
    | yes below ↦ ground (arith, bag-update n f i v p below)
    | no last ↦ ground (arith, bag-cong n f (update f i v) (λ j pj qj. ground arith))
  ]

  pub bag-snoc : (n : ℕ) (f : ℕ → Option A) → bag w (n + 1) f ≡ bag w n f + weight w (f (n + 1))
  unfolding bag
  bag-snoc n f = rw add-one

  pub bag-zero :
      (n : ℕ) (f : ℕ → Option A) → ((i : ℕ) → 0 < i → i ≤ n → weight w (f i) ≡ 0) → bag w n f ≡ 0
  unfolding bag
  bag-zero zero f none_counts = refl
  bag-zero (suc n) f none_counts =
      ground (arith, bag-zero n f (λ i p q. none_counts i p (omega arith)), none_counts (suc n))

-- The comparator agrees with a rank of the items, on the items that are `Fit`.
pub record Agrees {A : Type 0} (Fit : A → Type 0) (rank : A → ℕ) (cmp : A → A → ℤ) : Type 0 where
  pub above : (a b : A) → Fit a → Fit b → is_positive (cmp a b) ≡ ltb (rank b) (rank a)
  pub below : (a b : A) → Fit a → Fit b → is_negative (cmp a b) ≡ ltb (rank a) (rank b)

-- Cell `i` holds an item, and it is `Fit`.
abbrev pub IsLive : {A : Type 0} → (A → Type 0) → (ℕ → Option A) → ℕ → Type 0
IsLive {A} Fit f i = (x : A) × (f i ≡ some x) × Fit x

abbrev pub key : {A : Type 0} → (A → ℕ) → (ℕ → Option A) → ℕ → ℕ
key rank f i = weight rank (f i)

-- Every live cell of `f` holds an item, and none ranks higher than its children.
pub record IsOrdered {A : Type 0} (Fit : A → Type 0) (rank : A → ℕ) (n : ℕ) (f : ℕ → Option A)
    : Type 0 where
  pub live : (i : ℕ) → 0 < i → i ≤ n → IsLive Fit f i
  pub order : (c : ℕ) → 1 < c → c ≤ n → key rank f (c / 2) ≤ key rank f c

module _ {A : Type 0} (Fit : A → Type 0) (rank : A → ℕ) where
  -- `size` is an upper bound of the block, the live cells are inside it, and every item ranks no
  -- higher than its children.
  pub record IsHeap (h : Heap A) : Type 0 where
    pub room : h.items < h.block.length
    pub sized : h.block.length ≤ h.size
    pub ordered : IsOrdered Fit rank h.items h.block.cell

  root_least_below :
      (k : ℕ) (h : Heap A) (i : ℕ)
      → IsHeap h
      → i < k
      → 0 < i
      → i ≤ h.items
      → key rank h.block.cell 1 ≤ key rank h.block.cell i
  root_least_below zero h i v f p q = absurd (omega arith)
  root_least_below (suc k) h i v f p q =
      ground (arith, v.ordered.order i, root_least_below k h (i / 2) v)

  -- The root ranks lowest.
  pub root_least :
      (h : Heap A) (i : ℕ)
      → IsHeap h
      → 0 < i
      → i ≤ h.items
      → key rank h.block.cell 1 ≤ key rank h.block.cell i
  root_least h i v p q = root_least_below (suc i) h i v (omega arith) p q

-- Nothing but the cells differs.
pub record SameShape {A : Type 0} (h g : Heap A) : Type 0 where
  pub length : g.block.length ≡ h.block.length
  pub size : g.size ≡ h.size
  pub items : g.items ≡ h.items
  pub compare : g.compare ≡ h.compare
