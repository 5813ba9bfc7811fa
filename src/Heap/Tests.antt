-- ===== src/Heap/Tests.antt =====
-- The heap of numbers.
use shproject.Prelude.{ℕ, ◌+◌, ◌<◌, ◌≡◌, refl, true, false, Bool, some, List, [], ◌∷◌, arith}
use shproject.Prelude.Int.{ℤ, sub_ℕ}
use shproject.Prelude.Outcome.{Returns, fault, ◌>>◌}
use shproject.Heap.{Heap, heap_init, heap_pop_min}
use shproject.Heap.Order.{Agrees, IsHeap}
use shproject.Heap.Pop.{Popped, heap_pop_min_lem}
use shproject.Heap.Sort.{pop_all, IsSorted, IsRearranged, push_all-pop_all}
use shproject.Heap.Overflow.{AllFit, push_all, pop_push_all-overflow}

abbrev Any : ℕ → Type 0
Any _ = Unit

abbrev self : ℕ → ℕ
self n = n

abbrev order : ℕ → ℕ → ℤ
order a b = sub_ℕ a b

order-Agrees : Agrees Any self order
order-Agrees = record { above = λ a b _ _. ground arith; below = λ a b _ _. ground arith }

-- A heap of `items` numbers from 8 on, in a block of `size` cells.
abbrev numbers : ℕ → ℕ → Heap ℕ
numbers size items = record {
  block = record { length = size; cell = λ i. some (i + 7) };
  size = size;
  items = items;
  compare = order;
}

numbers-IsHeap : (size items : ℕ) → items < size → IsHeap Any self (numbers size items)
numbers-IsHeap size items p = record {
  room = p;
  sized = omega arith;
  ordered = record { live = λ i _ _. (i + 7, refl, tt); order = λ c _ _. omega arith };
}

heap_pop_min_lem_example :
    Returns
      (λ r g. (x : ℕ) × (r ≡ some x) × Popped Any self (numbers 16 5) x g)
      (heap_pop_min true (numbers 16 5))
heap_pop_min_lem_example =
    heap_pop_min_lem (numbers 16 5) true order-Agrees (numbers-IsHeap 16 5 (omega arith))
      (omega arith)

abbrev twelve : List ℕ
twelve = 1 ∷ 2 ∷ 3 ∷ 4 ∷ 5 ∷ 6 ∷ 7 ∷ 8 ∷ 9 ∷ 10 ∷ 11 ∷ 12 ∷ []

all_fit : (xs : List ℕ) → AllFit Any xs
all_fit [] = tt
all_fit (x ∷ xs) = (tt, all_fit xs)

pop_push_all-overflow_example : (heap_pop_min true >> push_all twelve) (numbers 32 5) ≡ fault
pop_push_all-overflow_example =
    pop_push_all-overflow twelve (numbers 32 5) order-Agrees (numbers-IsHeap 32 5 (omega arith))
      (all_fit twelve) (omega arith) (omega arith) (omega arith) refl

-- The numbers of test/test_heap.c.
abbrev values : List ℕ
values = 12 ∷ 2955 ∷ 7 ∷ 99 ∷ 51 ∷ 1 ∷ 691_050 ∷ []

abbrev grants : List Bool
grants = true ∷ false ∷ true ∷ true ∷ true ∷ true ∷ true ∷ []

push_all-pop_all_example :
    Returns
      (λ ys g. (g.items ≡ 0) × IsSorted self ys × IsRearranged values ys)
      ((push_all values >> pop_all grants) (heap_init true order).0)
push_all-pop_all_example = push_all-pop_all order values grants order-Agrees (all_fit values) refl
