-- ===== src/Ring/Queue.antt =====
-- The list of util/list.h as a queue, and its two tests.
use shproject.Prelude.{
  ◌≡◌, Bool, true, false, Option, none, some, List, [], ◌∷◌, ◌++◌, arith, ◌==◌, if◌then◌else◌, has,
  ◌∈◌, has-append, not-mem_of_mem, Bool-cases, inl, inr, Option-cases, subst,
}
use shproject.Prelude.Outcome.{Prog, ok, pure, ◌>>=◌, ◌>>◌, Returns, returns, Returns-bind}
use shproject.Ring.{
  Ptr, null, Store, write, list_init, list_empty, list_in_list, list_push_back, list_pop_front,
}
use shproject.Ring.Cycle.{Chain, IsRing, SameOutside, IsFree}
use shproject.Ring.Insert.{list_push_back_lem}
use shproject.Ring.Remove.{list_pop_front_lem}

abbrev pub is_nil : List Ptr → Bool
is_nil [] = true
is_nil (x ∷ xs) = false

-- list_empty tells whether the list holds no node, and changes nothing.
pub list_empty_lem :
    (h : Store) (l : Ptr) (xs : List Ptr) → IsRing h l xs → list_empty l h ≡ ok (is_nil xs) h
unfolding list_empty
list_empty_lem h l [] c = ground (arith, c.nonnull)
list_empty_lem h l (x ∷ xs) c = ground (arith, c.nonnull, c.distinct)

abbrev emptied : Store → Ptr → Store
emptied h l = write (write h l (record (h l) { next = l })) l (record { next = l; prev = l })

init_run : (h : Store) (l : Ptr) → (l == null) ≡ false → list_init l h ≡ ok tt (emptied h l)
unfolding list_init
init_run h l nz = ground arith

-- list_init makes any node the sentinel of an empty list, and writes to no other.
pub list_init_lem :
    (h : Store) (l : Ptr)
    → (l == null) ≡ false
    → Returns (λ _ g. IsRing g l [] × SameOutside (l ∷ []) h g) (list_init l h)
list_init_lem h l nz = rw (init_run h l nz) (
    returns (
      record { closed = ground arith; distinct = ground arith; nonnull = ground arith },
      λ a o. ground arith,
    ))

next-mem :
    (h : Store) (p : Ptr) (xs : List Ptr) (q x : Ptr)
    → Chain h p xs q
    → x ∈ (p ∷ xs)
    → (h x).next ∈ (xs ++ q ∷ [])
next-mem h p [] q x c i = ground arith
next-mem h p (y ∷ ys) q x c i = ground (arith, next-mem h y ys q x)

-- list_in_list holds for the sentinel and each node of a list.
pub list_in_list-mem :
    (h : Store) (l x : Ptr) (xs : List Ptr)
    → IsRing h l xs
    → x ∈ (l ∷ xs)
    → list_in_list x h ≡ ok true h
unfolding list_in_list
list_in_list-mem h l x xs c i = ground (
  arith,
  c.nonnull,
  not-mem_of_mem null x (l ∷ xs),
  not-mem_of_mem null (h x).next (xs ++ l ∷ []),
  has-append null xs (l ∷ []),
  next-mem h l xs l x c.closed,
)

-- list_in_list fails for a node that is linked to nothing.
pub list_in_list-free :
    (h : Store) (x : Ptr) → IsFree h x → (x == null) ≡ false → list_in_list x h ≡ ok false h
unfolding list_in_list
list_in_list-free h x f nonnull = ground arith

-- A call on the queue.
pub data Call : Type 0 where
  push : Ptr → Call
  pop : Call

-- The calls in order on the list with sentinel `l`; the nodes that the pops returned.
unfoldable pub run : Ptr → List Call → Prog Store (List Ptr)
run l [] = pure []
run l (push x ∷ calls) = do list_push_back l x; run l calls
run l (pop ∷ calls) = do x ← list_pop_front l; rest ← run l calls; pure (x ∷ rest)

-- What a queue means: first in, first out. `none` for a pop of the empty queue and for a push of
-- NULL, of the sentinel or of a node that is queued already.
unfoldable pub fifo : Ptr → List Ptr → List Call → Option (List Ptr × List Ptr)
fifo l xs [] = some ([], xs)
fifo l xs (push x ∷ calls) =
    let rest = fifo l (xs ++ x ∷ []) calls in if has x (null ∷ l ∷ xs) then none else rest
fifo l [] (pop ∷ calls) = none
fifo l (x ∷ xs) (pop ∷ calls) = elim (fifo l xs calls) [
  | none ↦ none
  | some (out, ys) ↦ some (x ∷ out, ys)
]

not-none-some : {A : Type 0} {a : A} → ◌≡◌ {A = Option A} none (some a) → ⊥
not-none-some e = cc

fifo-pop :
    (calls : List Call) (l x : Ptr) (xs out ys : List Ptr)
    → fifo l (x ∷ xs) (pop ∷ calls) ≡ some (out, ys)
    → (rest : List Ptr) × (fifo l xs calls ≡ some (rest, ys)) × (out ≡ x ∷ rest)
unfolding fifo
fifo-pop calls l x xs out ys e = elim (Option-cases (fifo l xs calls)) [
  | inl gone ↦ absurd (not-none-some (rw gone at e))
  | inr ((rest, zs), found) ↦ (rest, ground arith, ground arith)
]

-- The list refines the queue: wherever the queue's meaning is defined, the calls return, with the
-- same nodes in the same order, and the list holds what the queue holds.
pub run-fifo :
    (calls : List Call) (h : Store) (l : Ptr) (xs out ys : List Ptr)
    → IsRing h l xs
    → fifo l xs calls ≡ some (out, ys)
    → Returns (λ r g. (r ≡ out) × IsRing g l ys) (run l calls h)
unfolding run fifo
run-fifo [] h l xs out ys c e = returns (ground arith, subst (λ zs. IsRing h l zs) (ground arith) c)
run-fifo (push x ∷ calls) h l xs out ys c e = elim (Bool-cases (has x (null ∷ l ∷ xs))) [
  | inl bad ↦ absurd (not-none-some (rw bad at e))
  | inr good ↦
      Returns-bind (list_push_back_lem h l x xs c good)
        λ _ g done. run-fifo calls g l (xs ++ x ∷ []) out ys done.0 (rw good at e)
]
run-fifo (pop ∷ calls) h l [] out ys c e = cc
run-fifo (pop ∷ calls) h l (x ∷ xs) out ys c e =
    let (rest, later, same) = fifo-pop calls l x xs out ys e in
    Returns-bind (list_pop_front_lem h l x xs c) λ r g done.
      Returns-bind (run-fifo calls g l xs rest ys done.1 later)
        λ r' g' after. returns (ground arith, after.1)
