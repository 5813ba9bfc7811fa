-- ===== src/Ring/Remove.antt =====
-- list_remove and the two pops.
use mathlib.Core.List.{append-nil}
use mathlib.Core.Path.{fun_ext}
use shproject.Prelude.{
  ◌≡◌, ◌≢◌, refl, ap, ◌∙◌, false, List, [], ◌∷◌, ◌++◌, arith, ◌==◌, if◌then◌else◌, ◌∈◌, ◌∉◌,
  IsDistinct, not-mem_of_mem,
}
use shproject.Prelude.Outcome.{ok, Returns, returns, Returns-mono, Returns-bind}
use shproject.Ring.{Ptr, null, Store, write, list_remove, list_pop_front, list_pop_back}
use shproject.Ring.Cycle.{Chain, IsCycle, IsRing, SameOutside, IsFree, IsCycle-rotate}

-- The store with `item` cut out from between `p` and `n`.
cut : Store → Ptr → Ptr → Ptr → Store
cut h item p n x = record {
  next = if x == item then null else if x == p then n else (h x).next;
  prev = if x == item then null else if x == n then p else (h x).prev;
}

-- The store after the four writes of list_remove.
abbrev removed : Store → Ptr → Store
removed h item =
    let p = (h item).prev in
    let h₁ = write h p (record (h p) { next = (h item).next }) in
    let n = (h₁ item).next in
    let h₂ = write h₁ n (record (h₁ n) { prev = (h₁ item).prev }) in
    let h₃ = write h₂ item (record (h₂ item) { prev = null }) in
    write h₃ item (record (h₃ item) { next = null })

module _ (h : Store) (item : Ptr) (ni : (item == null) ≡ false)
    (out : item ∉ ((h item).next ∷ (h item).prev ∷ [])) (nn : ((h item).next == null) ≡ false)
    (np : ((h item).prev == null) ≡ false) where
  list_remove-removed : list_remove item h ≡ ok tt (removed h item)
  unfolding list_remove
  list_remove-removed = ground arith

  list_remove-cut : list_remove item h ≡ ok tt (cut h item (h item).prev (h item).next)
  unfolding cut
  list_remove-cut = list_remove-removed ∙ ap (ok tt) (fun_ext λ x. ground arith)

prev-mem : (h : Store) (s : Ptr) (zs : List Ptr) (t : Ptr) → Chain h s zs t → (h t).prev ∈ (s ∷ zs)
prev-mem h s [] t c = ground arith
prev-mem h s (z ∷ zs) t c = ground (arith, prev-mem h z zs t)

-- A chain that ended at `item` ends at `n` after the cut.
Chain-cut :
    (h : Store) (item n s : Ptr) (zs : List Ptr)
    → Chain h s zs item
    → IsDistinct (s ∷ zs)
    → item ∉ (n ∷ s ∷ zs)
    → n ∉ zs
    → Chain (cut h item (h item).prev n) s zs n
unfolding cut
Chain-cut h item n s [] c d out new = ground arith
Chain-cut h item n s (z ∷ zs) c d out new = (
  ground (arith, prev-mem h z zs item, not-mem_of_mem s (h item).prev (z ∷ zs)),
  Chain-cut h item n z zs c.1 d.1 (ground arith) (ground arith),
)

cut-IsCycle :
    (h : Store) (item y : Ptr) (zs : List Ptr)
    → IsCycle h (item ∷ y ∷ zs)
    → IsCycle (cut h item (h item).prev y) (y ∷ zs)
cut-IsCycle h item y zs c = record {
  closed =
      Chain-cut h item y y zs c.closed.1 c.distinct.1 (ground (arith, c.distinct)) c.distinct.1.0;
  distinct = c.distinct.1;
  nonnull = ground (arith, c.nonnull);
}

-- Once it is removed, the node is in no list.
cut-IsFree : (h : Store) (item p n : Ptr) → IsFree (cut h item p n) item
unfolding cut
cut-IsFree h item p n = ground arith

cut-same :
    (h : Store) (item n : Ptr) (ys : List Ptr)
    → n ∈ ys
    → (h item).prev ∈ ys
    → SameOutside (item ∷ ys) h (cut h item (h item).prev n)
unfolding cut
cut-same h item n ys i j x o =
    ground (arith, not-mem_of_mem x n ys, not-mem_of_mem x (h item).prev ys)

-- What an operation promises that takes `item` out of the list and leaves `ys`.
abbrev pub Left : Ptr → List Ptr → Store → Store → Type 0
Left item ys h g = IsCycle g ys × IsFree g item × SameOutside (item ∷ ys) h g

-- list_remove takes any node out of a list of two or more, and writes to no node outside.
pub list_remove_lem :
    (h : Store) (item y : Ptr) (zs : List Ptr)
    → IsCycle h (item ∷ y ∷ zs)
    → Returns (λ _. Left item (y ∷ zs) h) (list_remove item h)
list_remove_lem h item y zs c =
    let before = prev-mem h y zs item c.closed.1 in
    let next : (h item).next ≡ y = c.closed.0.0 in
    let apart = not-mem_of_mem item (h item).prev (y ∷ zs) c.distinct.0 before in
    let nonnull = not-mem_of_mem null (h item).prev (y ∷ zs) (ground (arith, c.nonnull)) before in
    rw
      (
        list_remove-cut h item (ground (arith, c.nonnull)) (ground (arith, c.distinct))
            (ground (arith, c.nonnull)) nonnull,
        next,
      )
      (returns (
        cut-IsCycle h item y zs c,
        cut-IsFree h item _ y,
        cut-same h item y (y ∷ zs) (ground arith) before,
      ))

-- list_remove takes `item` out from any place of the list, and keeps the order of the others.
list_remove-IsRing :
    (h : Store) (l item : Ptr) (us vs : List Ptr)
    → IsRing h l (us ++ item ∷ vs)
    → Returns (λ _ g. IsRing g l (us ++ vs) × IsFree g item) (list_remove item h)
list_remove-IsRing h l item us [] c =
    let seen = IsCycle-rotate h (l ∷ us) (item ∷ []) c in
    rw (append-nil us)
      (Returns-mono (list_remove_lem h item l us seen) λ _ g left. (left.0, left.1))
list_remove-IsRing h l item us (v ∷ vs) c =
    let seen = IsCycle-rotate h (l ∷ us) (item ∷ v ∷ vs) c in
    Returns-mono (list_remove_lem h item v (vs ++ l ∷ us) seen)
      λ _ g left. (IsCycle-rotate g (v ∷ vs) (l ∷ us) left.0, left.1)

-- list_pop_front takes out the first node and returns it.
pub list_pop_front_lem :
    (h : Store) (l x : Ptr) (xs : List Ptr)
    → IsRing h l (x ∷ xs)
    → Returns (λ r g. (r ≡ x) × IsRing g l xs × IsFree g x) (list_pop_front l h)
unfolding list_pop_front
list_pop_front_lem h l x xs c =
    let nonnull : (l == null) ≡ false = ground (arith, c.nonnull) in
    rw (nonnull, c.closed.0.0)
      (Returns-bind (list_remove-IsRing h l x [] xs c) λ _ g left. returns (refl, left.0, left.1))

-- list_pop_back takes out the last node and returns it.
pub list_pop_back_lem :
    (h : Store) (l x : Ptr) (xs : List Ptr)
    → IsRing h l (xs ++ x ∷ [])
    → Returns (λ r g. (r ≡ x) × IsRing g l xs × IsFree g x) (list_pop_back l h)
unfolding list_pop_back
list_pop_back_lem h l x xs c =
    let seen = IsCycle-rotate h (l ∷ xs) (x ∷ []) c in
    let nonnull : (l == null) ≡ false = ground (arith, c.nonnull) in
    rw (nonnull, seen.closed.0.1)
      (Returns-bind (list_remove-IsRing h l x xs [] c)
        λ _ g left. returns (refl, rw (append-nil xs) at left.0, left.1))

list_remove-alone : (h : Store) (l : Ptr) → IsRing h l [] → list_remove l h ≡ ok tt (removed h l)
unfolding list_remove
list_remove-alone h l c = ground (arith, c.nonnull, c.closed)

-- On an empty list list_pop_front returns the sentinel itself, never NULL, and the list is lost:
-- its sentinel is linked to nothing.
list_pop_front-nil :
    (h : Store) (l : Ptr)
    → IsRing h l []
    → Returns (λ r g. (r ≡ l) × (l ≢ null) × IsFree g l) (list_pop_front l h)
unfolding list_pop_front
list_pop_front-nil h l c =
    let nonnull : (l == null) ≡ false = ground (arith, c.nonnull) in
    rw (nonnull, c.closed.0, list_remove-alone h l c)
      (returns (refl, ground arith, ground (arith, c.closed)))
