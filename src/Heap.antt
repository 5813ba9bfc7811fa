-- ===== src/Heap.antt =====
-- util/heap.c: the binary min-heap of pointers. Cell 0 of the array is never used.
-- An item is a pointer, here a value of any type `A`. Whether malloc and realloc grant a request is
-- an argument of the functions that call them. Numbers of items stay far below 2^64, and an index
-- of the pop below 2^31, as long as the array fits in memory, so neither size_t nor int wraps.
pub mod Order
pub mod Cells
pub mod Up
pub mod Push
pub mod Down
pub mod Pop
pub mod Overflow
pub mod Sort
mod Tests
use shproject.Prelude.{
  ℕ, zero, suc, ◌+◌, ◌-◌, ◌*◌, ◌/◌, Bool, true, false, ◌&&◌, Option, none, some, ltb, leb, ◌==◌,
  if◌then◌else◌,
}
use shproject.Prelude.Int.{ℤ, is_positive, is_negative}
use shproject.Prelude.Outcome.{Prog, ok, fault, out_of_fuel, pure, ◌>>=◌, ◌>>◌}

-- INITIAL_SIZE
abbrev pub initial_size : ℕ
initial_size = 16

-- ENOMEM
abbrev pub enomem : ℕ
enomem = 12

-- A block from malloc: its number of cells, and what was written to each; `none` is a cell that
-- holds no value yet. NULL, and a block that was freed, have no cells.
pub record Block (A : Type 0) : Type 0 where
  pub length : ℕ
  pub cell : ℕ → Option A

-- `struct heap`; the field `heap` is `block`.
pub record Heap (A : Type 0) : Type 0 where
  pub block : Block A
  pub size : ℕ
  pub items : ℕ
  pub compare : A → A → ℤ

abbrev pub update {ℓ} : {A : Type ℓ} → (ℕ → A) → ℕ → A → ℕ → A
update f i v j = if j == i then v else f j

module _ {A : Type 0} where
  abbrev pub no_block : Block A
  no_block = record { length = 0; cell = λ _. none }

  abbrev pub malloc_block : ℕ → Block A
  malloc_block n = record { length = n; cell = λ _. none }

  -- realloc keeps what fits.
  abbrev pub realloc_block : ℕ → Block A → Block A
  realloc_block n b = record {
    length = n;
    cell = λ i. if ltb i b.length && ltb i n then b.cell i else none;
  }

  abbrev pub get : Prog (Heap A) (Heap A)
  get h = ok h h

  -- `heap->heap[i]`: a fault out of the block, and at a cell that holds no value.
  pub load : ℕ → Prog (Heap A) A
  load i h =
      if ltb i h.block.length
      then elim (h.block.cell i) [ none ↦ fault | some x ↦ ok x h ]
      else fault

  pub store : ℕ → A → Prog (Heap A) (Unit {0})
  store i x h =
      if ltb i h.block.length
      then ok tt (record h {
        block = record { length = h.block.length; cell = update h.block.cell i (some x) };
      })
      else fault

  unfoldable pub heap_init : Bool → (A → A → ℤ) → Heap A × ℕ
  heap_init granted compare =
      if granted
      then (
        record {
          block = malloc_block initial_size;
          size = initial_size;
          items = 0;
          compare = compare;
        },
        0,
      )
      else (record { block = no_block; size = initial_size; items = 0; compare = compare }, enomem)

  abbrev pub heap_free : Prog (Heap A) (Unit {0})
  heap_free h = ok tt (record h { block = no_block })

  abbrev pub heap_empty : Heap A → Bool
  heap_empty h = h.items == 0

  abbrev pub heap_size : Heap A → ℕ
  heap_size h = h.items

  -- The doubling of heap_push, and the item count that follows it; `true` if memory was granted.
  pub grow : Bool → Prog (Heap A) Bool
  grow granted h =
      if leb h.size (h.items + 1)
      then if granted
        then ok true (record h { block = realloc_block (h.size * 2) h.block; size = h.size * 2 })
        else ok false (record h { block = no_block })
      else ok true h

  -- The `while` of heap_push: the final `current`.
  pub up_loop : ℕ → ℕ → A → Prog (Heap A) ℕ
  up_loop zero current item = λ _. out_of_fuel
  up_loop (suc k) current item =
      if ltb 1 current
      then (do
        h ← get
        above ← load (current / 2)
        if is_positive (h.compare above item)
            then (do store current above; up_loop k (current / 2) item)
            else pure current)
      else pure current

  -- The part of heap_push behind the allocation. Halving an index ends after that many rounds.
  pub place : A → Prog (Heap A) (Unit {0})
  unfolding up_loop load store
  place item = do
    h ← get
    let last = h.items + 1
    λ g. ok tt (record g { items = last })
    store last item
    current ← up_loop (last + 1) last item
    store current item

  pub heap_push : Bool → A → Prog (Heap A) ℕ
  unfolding grow place
  heap_push granted item = do
    done ← grow granted
    if done then (do place item; pure 0) else pure enomem

  pub heap_min : Prog (Heap A) (Option A)
  unfolding load
  heap_min = do h ← get; if h.items == 0 then pure none else (do x ← load 1; pure (some x))

  -- `right > heap->items || heap->compare(heap->heap[left], heap->heap[right]) < 0`, with the left
  -- child at hand: `||` reads the right child only if it is live.
  pub left_first : Heap A → A → ℕ → Prog (Heap A) Bool
  unfolding load
  left_first h l right =
      if ltb h.items right
      then pure true
      else (do r ← load right; pure (is_negative (h.compare l r)))

  -- The `while` of heap_pop_min: the final `parent`. The `else if` reads the right child in any case.
  pub down_loop : ℕ → ℕ → A → Prog (Heap A) ℕ
  down_loop zero parent new_root = λ _. out_of_fuel
  down_loop (suc k) parent new_root = do
    h ← get
    let left = parent * 2
    let right = parent * 2 + 1
    if leb left h.items
        then (do
          l ← load left
          if is_positive (h.compare new_root l)
              then (do
                first ← left_first h l right
                if first
                    then (do store parent l; down_loop k left new_root)
                    else (do r ← load right; store parent r; down_loop k right new_root))
              else (do
                r ← load right
                if is_positive (h.compare new_root r)
                    then (do store parent r; down_loop k right new_root)
                    else pure parent))
        else pure parent

  -- The last part of heap_pop_min: the block is halved, and `size` is left as it was.
  pub shrink : Bool → Prog (Heap A) (Unit {0})
  shrink granted h =
      if ltb (h.items + 1) (h.size / 4) && ltb initial_size h.size
      then if granted
        then ok tt (record h { block = realloc_block (h.size / 2) h.block })
        else ok tt h
      else ok tt h

  -- The part of heap_pop_min between them, on a heap that is not empty.
  pub take_root : Prog (Heap A) A
  unfolding down_loop left_first load store
  take_root = do
    h ← get
    item ← load 1
    last ← load h.items
    store 1 last
    λ g. ok tt (record g { items = h.items - 1 })
    new_root ← load 1
    parent ← down_loop h.items 1 new_root
    store parent new_root
    pure item

  pub heap_pop_min : Bool → Prog (Heap A) (Option A)
  unfolding take_root shrink
  heap_pop_min granted = do
    h ← get
    if h.items == 0 then pure none else (do item ← take_root; shrink granted; pure (some item))
