-- ===== src/Ring/Tests.antt =====
-- The list on concrete stores.
use shproject.Prelude.{◌≡◌, refl, [], ◌∷◌, arith, ◌==◌, if◌then◌else◌}
use shproject.Prelude.Outcome.{Returns}
use shproject.Ring.{Store}
use shproject.Ring.Cycle.{IsRing}
use shproject.Ring.Deque.{
  push_front, push_back, pop_front, pop_back, run, stop, push_front_step, push_back_step,
  pop_front_step, pop_back_step, run-Deque,
}

-- The list 1 with the nodes 2 and 3.
abbrev two_nodes : Store
two_nodes p =
    if p == 1
    then record { next = 2; prev = 3 }
    else if p == 2
    then record { next = 3; prev = 1 }
    else if p == 3
    then record { next = 1; prev = 2 }
    else record { next = 0; prev = 0 }

two_nodes-IsRing : IsRing two_nodes 1 (2 ∷ 3 ∷ [])
two_nodes-IsRing = record { closed = ground arith; distinct = ground arith; nonnull = ground arith }

run-Deque_example :
    Returns
      (λ r g. (r ≡ 3 ∷ 4 ∷ 5 ∷ []) × IsRing g 1 (2 ∷ []))
      (run 1 (push_front 4 ∷ pop_back ∷ pop_front ∷ push_back 5 ∷ pop_back ∷ []) two_nodes)
run-Deque_example =
    run-Deque 1 two_nodes (push_front 4 ∷ pop_back ∷ pop_front ∷ push_back 5 ∷ pop_back ∷ [])
      (2 ∷ 3 ∷ []) (3 ∷ 4 ∷ 5 ∷ []) (2 ∷ []) two_nodes-IsRing
      (push_front_step 4 refl (
        pop_back_step {xs = 4 ∷ 2 ∷ []}
          (pop_front_step (push_back_step 5 refl (pop_back_step {xs = 2 ∷ []} stop)))))
