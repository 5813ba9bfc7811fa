-- ===== src/Ring/Insert.antt =====
-- list_insert and the two pushes.
use mathlib.Core.List.{append_assoc}
use mathlib.Core.Path.{fun_ext}
use shproject.Prelude.{
  ◌≡◌, ap, ◌∙◌, false, List, [], ◌∷◌, ◌++◌, arith, ◌==◌, if◌then◌else◌, ◌∈◌, ◌∉◌, has-append,
  not-mem_of_mem, snoc-cases, inl, inr,
}
use shproject.Prelude.Outcome.{ok, Returns, returns, Returns-mono}
use shproject.Ring.{Ptr, null, Store, write, list_insert, list_push_front, list_push_back}
use shproject.Ring.Cycle.{IsCycle, IsRing, SameOutside, IsCycle-rotate, Chain-frame}

-- The store with `item` spliced in between `a` and `b`.
spliced : Store → Ptr → Ptr → Ptr → Store
spliced h a item b x = record {
  next = if x == a then item else if x == item then b else (h x).next;
  prev = if x == b then item else if x == item then a else (h x).prev;
}

-- The store after the four writes of list_insert between `a` and `b`.
abbrev inserted : Store → Ptr → Ptr → Ptr → Store
inserted h a item b =
    let h₁ = write h item (record (h item) { next = b }) in
    let h₂ = write h₁ item (record (h₁ item) { prev = a }) in
    let h₃ = write h₂ a (record (h₂ a) { next = item }) in
    write h₃ b (record (h₃ b) { prev = item })

module _ (h : Store) (a item : Ptr) (na : (a == null) ≡ false) (nb : ((h a).next == null) ≡ false)
    (out : item ∉ (null ∷ a ∷ (h a).next ∷ [])) where
  list_insert-inserted : list_insert a item h ≡ ok tt (inserted h a item (h a).next)
  unfolding list_insert
  list_insert-inserted = ground arith

  list_insert-spliced : list_insert a item h ≡ ok tt (spliced h a item (h a).next)
  unfolding spliced
  list_insert-spliced = list_insert-inserted ∙ ap (ok tt) (fun_ext λ x. ground arith)

-- After the splice the cycle that was seen from `a` has `item` right behind `a`.
spliced-IsCycle :
    (h : Store) (a item : Ptr) (vs : List Ptr)
    → IsCycle h (a ∷ vs)
    → item ∉ (null ∷ a ∷ vs)
    → IsCycle (spliced h a item (h a).next) (a ∷ item ∷ vs)
unfolding spliced
spliced-IsCycle h a item [] c out = record {
  closed = (ground arith, ground arith);
  distinct = ground arith;
  nonnull = ground arith;
}
spliced-IsCycle h a item (b ∷ ws) c out = record {
  closed = (
    ground arith,
    (
      ground arith,
      Chain-frame h _ b ws a (λ x i. ground (arith, c.distinct))
          (λ x i. ground (arith, has-append x ws (a ∷ []))) c.closed.1,
    ),
  );
  distinct = ground arith;
  nonnull = ground arith;
}

next-mem : (h : Store) (a : Ptr) (vs : List Ptr) → IsCycle h (a ∷ vs) → (h a).next ∈ (a ∷ vs)
next-mem h a [] c = ground arith
next-mem h a (b ∷ ws) c = ground arith

spliced-same :
    (h : Store) (a item : Ptr) (vs : List Ptr)
    → (h a).next ∈ (a ∷ vs)
    → SameOutside (item ∷ a ∷ vs) h (spliced h a item (h a).next)
unfolding spliced
spliced-same h a item vs i x o = ground (arith, not-mem_of_mem x (h a).next (a ∷ vs))

-- What an operation promises that puts `item` into the list.
abbrev pub Entered : Ptr → List Ptr → List Ptr → Store → Unit {0} → Store → Type 0
Entered item old new h _ g = IsCycle g new × SameOutside (item ∷ old) h g

-- list_insert puts the item right behind any node of a list, and writes to no node outside.
pub list_insert_lem :
    (h : Store) (a item : Ptr) (vs : List Ptr)
    → IsCycle h (a ∷ vs)
    → item ∉ (null ∷ a ∷ vs)
    → Returns (Entered item (a ∷ vs) (a ∷ item ∷ vs) h) (list_insert a item h)
list_insert_lem h a item vs c out =
    let n = (h a).next in
    let inside = next-mem h a vs c in
    let nonnull = not-mem_of_mem null n (a ∷ vs) c.nonnull inside in
    let apart = not-mem_of_mem item n (a ∷ vs) (ground arith) inside in
    rw (list_insert-spliced h a item (ground (arith, c.nonnull)) nonnull (ground arith))
      (returns (spliced-IsCycle h a item vs c out, spliced-same h a item vs inside))

-- list_push_front puts a free node before the first one.
pub list_push_front_lem :
    (h : Store) (l item : Ptr) (xs : List Ptr)
    → IsRing h l xs
    → item ∉ (null ∷ l ∷ xs)
    → Returns
        (λ _ g. IsRing g l (item ∷ xs) × SameOutside (item ∷ l ∷ xs) h g)
        (list_push_front l item h)
unfolding list_push_front
list_push_front_lem h l item xs c out = list_insert_lem h l item xs c out

ends_nonnull :
    {h : Store} {a l : Ptr} {xs : List Ptr} → IsCycle h (a ∷ l ∷ xs) → (l == null) ≡ false
ends_nonnull c = ground (arith, c.nonnull)

list_push_back-snoc :
    (h : Store) (l item a : Ptr) (xs : List Ptr)
    → IsRing h l (xs ++ a ∷ [])
    → item ∉ (null ∷ l ∷ xs ++ a ∷ [])
    → Returns
        (λ _ g.
          IsRing g l ((xs ++ a ∷ []) ++ item ∷ []) × SameOutside (item ∷ l ∷ xs ++ a ∷ []) h g)
        (list_push_back l item h)
unfolding list_push_back
list_push_back-snoc h l item a xs c out =
    let seen = IsCycle-rotate h (l ∷ xs) (a ∷ []) c in
    rw (ends_nonnull seen, seen.closed.0.1)
      (Returns-mono
        (list_insert_lem h a item (l ∷ xs) seen (ground (arith, has-append item xs (a ∷ []))))
        λ _ g (cycle, same). (
          rw (append_assoc xs (a ∷ []) (item ∷ []))
              (IsCycle-rotate g (a ∷ item ∷ []) (l ∷ xs) cycle),
          λ x o. same x (ground (arith, has-append x xs (a ∷ []))),
        ))

list_push_back-nil :
    (h : Store) (l item : Ptr)
    → IsRing h l []
    → item ∉ (null ∷ l ∷ [])
    → Returns
        (λ _ g. IsRing g l (item ∷ []) × SameOutside (item ∷ l ∷ []) h g)
        (list_push_back l item h)
unfolding list_push_back
list_push_back-nil h l item c out =
    let nonnull : (l == null) ≡ false = ground (arith, c.nonnull) in
    rw (nonnull, c.closed.1) (list_insert_lem h l item [] c out)

-- list_push_back puts a free node behind the last one.
pub list_push_back_lem :
    (h : Store) (l item : Ptr) (xs : List Ptr)
    → IsRing h l xs
    → item ∉ (null ∷ l ∷ xs)
    → Returns
        (λ _ g. IsRing g l (xs ++ item ∷ []) × SameOutside (item ∷ l ∷ xs) h g)
        (list_push_back l item h)
unfolding list_push_back
list_push_back_lem h l item xs c out = elim (snoc-cases xs) [
  | inl e ↦ rw e (list_push_back-nil h l item (rw e at c) (rw e at out))
  | inr (ys, a, e) ↦ rw e (list_push_back-snoc h l item a ys (rw e at c) (rw e at out))
]
