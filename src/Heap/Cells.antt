-- ===== src/Heap/Cells.antt =====
-- Reads and writes that succeed, and what the loops of util/heap.c leave behind.
use shproject.Prelude.{ℕ, ◌≤◌, ◌<◌, ◌≡◌, refl, ◌∙◌, false, Option, some, arith, ◌==◌}
use shproject.Prelude.Outcome.{ok}
use shproject.Heap.{Heap, update, load, store}
use shproject.Heap.Order.{bag-update, SameItems, IsOrdered, SameShape}

-- The cells with `item` put where the loop stands.
abbrev pub filled : {A : Type 0} → Heap A → ℕ → A → ℕ → Option A
filled h current item = update h.block.cell current (some item)

pub load-ok :
    {A : Type 0} (h : Heap A) (i : ℕ) (x : A)
    → i < h.block.length
    → h.block.cell i ≡ some x
    → load i h ≡ ok x h
unfolding load
load-ok h i x p e = ground arith

abbrev pub stored : {A : Type 0} → Heap A → ℕ → A → Heap A
stored h i x = record h {
  block = record { length = h.block.length; cell = update h.block.cell i (some x) };
}

pub store-ok :
    {A : Type 0} (h : Heap A) (i : ℕ) (x : A)
    → i < h.block.length
    → store i x h ≡ ok tt (stored h i x)
unfolding store
store-ok h i x p = ground arith

-- What the loop leaves: `item` fits where it stops, and the cells hold the same items.
pub record Settled {A : Type 0} (Fit : A → Type 0) (rank : A → ℕ) (item : A) (h : Heap A)
    (start : ℕ) (stop : ℕ) (g : Heap A) : Type 0 where
  pub shape : SameShape h g
  pub inside : (0 < stop) × (stop < h.block.length)
  pub ordered : IsOrdered Fit rank h.items (filled g stop item)
  pub same : SameItems h.items (filled h start item) (filled g stop item)

-- An item moves to the place `i` of the loop, and the loop to the item's: nothing is lost.
pub move-same :
    {A : Type 0} (n : ℕ) (h : Heap A) (i j : ℕ) (item x : A)
    → (0 < i) × (i ≤ n)
    → (0 < j) × (j ≤ n)
    → (j == i) ≡ false
    → h.block.cell j ≡ some x
    → SameItems n (filled h i item) (filled (stored h i x) j item)
move-same n h i j item x (pi, qi) (pj, qj) off e w = ground (
  arith,
  bag-update w n h.block.cell i (some item),
  bag-update w n h.block.cell i (some x),
  bag-update w n (update h.block.cell i (some x)) j (some item),
)

pub move-Settled :
    {A : Type 0} {Fit : A → Type 0} {rank : A → ℕ} (h g : Heap A) (i j k : ℕ) (item x : A)
    → (0 < i) × (i ≤ h.items)
    → (0 < j) × (j ≤ h.items)
    → (j == i) ≡ false
    → h.block.cell j ≡ some x
    → Settled Fit rank item (stored h i x) j k g
    → Settled Fit rank item h i k g
move-Settled h g i j k item x pi pj off e s = record {
  shape = record {
    length = s.shape.length;
    size = s.shape.size;
    items = s.shape.items;
    compare = s.shape.compare;
  };
  inside = s.inside;
  ordered = s.ordered;
  same = λ w. s.same w ∙ move-same h.items h i j item x pi pj off e w;
}

pub rest-Settled :
    {A : Type 0} {Fit : A → Type 0} {rank : A → ℕ} (h : Heap A) (i : ℕ) (item : A)
    → (0 < i) × (i < h.block.length)
    → IsOrdered Fit rank h.items (filled h i item)
    → Settled Fit rank item h i i h
rest-Settled h i item inside ordered = record {
  shape = record { length = refl; size = refl; items = refl; compare = refl };
  inside = inside;
  ordered = ordered;
  same = λ w. refl;
}
