-- ===== src/Ring/Deque.antt =====
-- The list of util/list.h as a queue with two ends.
use shproject.Prelude.{◌≡◌, refl, false, List, [], ◌∷◌, ◌++◌, arith, has}
use shproject.Prelude.Outcome.{Prog, pure, ◌>>=◌, ◌>>◌, Returns, returns, Returns-bind}
use shproject.Ring.{
  Ptr, null, Store, list_push_front, list_push_back, list_pop_front, list_pop_back,
}
use shproject.Ring.Cycle.{IsRing}
use shproject.Ring.Insert.{list_push_front_lem, list_push_back_lem}
use shproject.Ring.Remove.{list_pop_front_lem, list_pop_back_lem}

pub data Call : Type 0 where
  push_front push_back : Ptr → Call
  pop_front pop_back : Call

-- The calls in order on the list with sentinel `l`; the nodes that the pops returned.
unfoldable pub run : Ptr → List Call → Prog Store (List Ptr)
run l [] = pure []
run l (push_front x ∷ calls) = do list_push_front l x; run l calls
run l (push_back x ∷ calls) = do list_push_back l x; run l calls
run l (pop_front ∷ calls) = do x ← list_pop_front l; rest ← run l calls; pure (x ∷ rest)
run l (pop_back ∷ calls) = do x ← list_pop_back l; rest ← run l calls; pure (x ∷ rest)

-- What the calls mean for a queue that holds `xs`: what the pops return, and what it holds then. A
-- push of NULL, of the sentinel or of a node that is queued already means nothing, and a pop of the
-- empty queue neither.
pub data Deque (l : Ptr) : List Ptr → List Call → List Ptr → List Ptr → Type 0 where
  stop : {xs : List Ptr} → Deque l xs [] [] xs
  push_front_step :
      {xs out ys : List Ptr} {calls : List Call} (x : Ptr)
      → has x (null ∷ l ∷ xs) ≡ false
      → Deque l (x ∷ xs) calls out ys
      → Deque l xs (push_front x ∷ calls) out ys
  push_back_step :
      {xs out ys : List Ptr} {calls : List Call} (x : Ptr)
      → has x (null ∷ l ∷ xs) ≡ false
      → Deque l (xs ++ x ∷ []) calls out ys
      → Deque l xs (push_back x ∷ calls) out ys
  pop_front_step :
      {x : Ptr} {xs out ys : List Ptr} {calls : List Call}
      → Deque l xs calls out ys
      → Deque l (x ∷ xs) (pop_front ∷ calls) (x ∷ out) ys
  pop_back_step :
      {x : Ptr} {xs out ys : List Ptr} {calls : List Call}
      → Deque l xs calls out ys
      → Deque l (xs ++ x ∷ []) (pop_back ∷ calls) (x ∷ out) ys

-- The list refines the queue: wherever the queue's meaning is defined, the calls return, with the
-- same nodes in the same order, and the list holds what the queue holds.
pub run-Deque :
    (l : Ptr) (h : Store) (calls : List Call) (xs out ys : List Ptr)
    → IsRing h l xs
    → Deque l xs calls out ys
    → Returns (λ r g. (r ≡ out) × IsRing g l ys) (run l calls h)
unfolding run
run-Deque l h calls xs out ys c stop = returns (refl, c)
run-Deque l h calls xs out ys c (push_front_step x good d) =
    Returns-bind (list_push_front_lem h l x xs c good)
      λ _ g q. run-Deque l g _ (x ∷ xs) out ys q.0 d
run-Deque l h calls xs out ys c (push_back_step x good d) =
    Returns-bind (list_push_back_lem h l x xs c good)
      λ _ g q. run-Deque l g _ (xs ++ x ∷ []) out ys q.0 d
run-Deque l h calls _ _ ys c (pop_front_step {x} {xs} {out} d) =
    Returns-bind (list_pop_front_lem h l x xs c) λ r g q.
      Returns-bind (run-Deque l g _ xs out ys q.1 d) λ r' g' q'. returns (ground arith, q'.1)
run-Deque l h calls _ _ ys c (pop_back_step {x} {xs} {out} d) =
    Returns-bind (list_pop_back_lem h l x xs c) λ r g q.
      Returns-bind (run-Deque l g _ xs out ys q.1 d) λ r' g' q'. returns (ground arith, q'.1)
