-- ===== src/Ring/Cycle.antt =====
-- The shape of a list of util/list.h: a cycle of distinct nodes, seen from any of its members.
use mathlib.Core.List.{append_assoc, append-nil}
use shproject.Prelude.{
  ◌≡◌, refl, ap, List, [], ◌∷◌, ◌++◌, arith, ◌∈◌, ◌∉◌, IsDistinct, has-append, IsDistinct-snoc,
}
use shproject.Ring.{Ptr, null, Node, Store}

-- `p` and `q` are neighbours.
abbrev pub Linked : Store → Ptr → Ptr → Type 0
Linked h p q = ((h p).next ≡ q) × ((h q).prev ≡ p)

-- From `p` through the nodes of `xs` to `q`.
abbrev pub Chain : Store → Ptr → List Ptr → Ptr → Type 0
Chain h p [] q = Linked h p q
Chain h p (x ∷ xs) q = Linked h p x × Chain h x xs q

abbrev pub Closed : Store → List Ptr → Type 0
Closed h [] = Unit {0}
Closed h (x ∷ xs) = Chain h x xs x

-- The nodes of `xs` are distinct, none is NULL, and each is linked to the next one, the last to
-- the first.
pub record IsCycle (h : Store) (xs : List Ptr) : Type 0 where
  pub closed : Closed h xs
  pub distinct : IsDistinct xs
  pub nonnull : null ∉ xs

-- The list with sentinel `l` holds `xs`, from front to back.
abbrev pub IsRing : Store → Ptr → List Ptr → Type 0
IsRing h l xs = IsCycle h (l ∷ xs)

-- `g` differs from `h` at most at the addresses of `xs`.
abbrev pub SameOutside : List Ptr → Store → Store → Type 0
SameOutside xs h g = (a : Ptr) → a ∉ xs → g a ≡ h a

-- The node is in no list.
abbrev pub IsFree : Store → Ptr → Type 0
IsFree h p = ((h p).next ≡ null) × ((h p).prev ≡ null)

Chain-snoc :
    (h : Store) (p : Ptr) (xs : List Ptr) (q r : Ptr)
    → Chain h p xs q
    → Linked h q r
    → Chain h p (xs ++ q ∷ []) r
Chain-snoc h p [] q r c e = (c, e)
Chain-snoc h p (x ∷ xs) q r c e = (c.0, Chain-snoc h x xs q r c.1 e)

Closed-rotate : (h : Store) (x : Ptr) (xs : List Ptr) → Closed h (x ∷ xs) → Closed h (xs ++ x ∷ [])
Closed-rotate h x [] c = c
Closed-rotate h x (y ∷ ys) c = Chain-snoc h y ys x y c.1 c.0

IsCycle-rotate1 :
    (h : Store) (x : Ptr) (xs : List Ptr) → IsCycle h (x ∷ xs) → IsCycle h (xs ++ x ∷ [])
IsCycle-rotate1 h x xs c = record {
  closed = Closed-rotate h x xs c.closed;
  distinct = IsDistinct-snoc x xs c.distinct.0 c.distinct.1;
  nonnull = ground (arith, c.nonnull, has-append null xs (x ∷ []));
}

-- A cycle has no first node.
pub IsCycle-rotate : (h : Store) (xs ys : List Ptr) → IsCycle h (xs ++ ys) → IsCycle h (ys ++ xs)
IsCycle-rotate h [] ys c = rw (append-nil ys) c
IsCycle-rotate h (x ∷ xs) ys c =
    let step = IsCycle-rotate1 h x (xs ++ ys) c in
    let moved = rw (append_assoc xs ys (x ∷ [])) at step in
    rw (append_assoc ys (x ∷ []) xs) at (IsCycle-rotate h xs (ys ++ x ∷ []) moved)

module _ (h g : Store) where
  -- A chain survives any change that spares the pointers it goes by.
  pub Chain-frame :
      (p : Ptr) (xs : List Ptr) (q : Ptr)
      → ((a : Ptr) → a ∈ (p ∷ xs) → (g a).next ≡ (h a).next)
      → ((a : Ptr) → a ∈ (xs ++ q ∷ []) → (g a).prev ≡ (h a).prev)
      → Chain h p xs q
      → Chain g p xs q
  Chain-frame p [] q sn sp c = (ground (arith, sn p), ground (arith, sp q))
  Chain-frame p (x ∷ xs) q sn sp c = (
    (ground (arith, sn p), ground (arith, sp x)),
    Chain-frame x xs q (λ a i. sn a (ground arith)) (λ a i. sp a (ground arith)) c.1,
  )

  pub IsCycle-frame :
      (xs : List Ptr) → ((a : Ptr) → a ∈ xs → g a ≡ h a) → IsCycle h xs → IsCycle g xs
  IsCycle-frame [] same c = record { closed = tt; distinct = tt; nonnull = refl }
  IsCycle-frame (x ∷ xs) same c = record {
    closed =
        Chain-frame x xs x (λ a i. ap (λ (n : Node). n.next) (same a i))
          (λ a i. ap (λ (n : Node). n.prev) (same a (ground (arith, has-append a xs (x ∷ [])))))
          c.closed;
    distinct = c.distinct;
    nonnull = c.nonnull;
  }
