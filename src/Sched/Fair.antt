-- ===== src/Sched/Fair.antt =====
-- Coroutines that give up their timeslice in turn.
use mathlib.Core.List.{append-nil, append_assoc}
use shproject.Prelude.{
  ℕ, zero, suc, ◌≡◌, refl, sym, ◌∙◌, true, false, some, List, [], ◌∷◌, ◌++◌, arith, ◌==◌, ◌⊎◌, inl,
  inr, Bool-cases, length,
}
use shproject.Prelude.Outcome.{
  Prog, pure, ◌>>=◌, ◌>>◌, Returns, returns, Returns-bind, Returns-mono,
}
use shproject.Sched.State.{Coroutine, World, sched_get_current}
use shproject.Sched.Core.{sched_resched}
use shproject.Sched.Invariant.{queue, current, IsSound}
use shproject.Sched.Resched.{Yielded, sched_resched_lem, sched_resched-nil}

-- `n` times in turn, whichever coroutine runs calls sched_resched; the coroutines that run then.
unfoldable pub yields : ℕ → Prog World (List ℕ)
unfolding sched_resched sched_get_current
yields zero = pure []
yields (suc n) = do sched_resched; c ← sched_get_current; rest ← yields n; pure (c ∷ rest)

-- The coroutines of the thread in the order in which they run next; the one that runs is the last.
abbrev pub turns : World → List ℕ
turns w = queue w ++ current w ∷ []

-- What errno is in the coroutine, when it runs.
abbrev HasErrno : World → ℕ → ℕ → Type 0
HasErrno w t e =
    ((t == current w) ≡ true) × (w.lsched.errno ≡ e)
    ⊎ ((t == current w) ≡ false) × ((x : Coroutine) × (w.coros t ≡ some x) × (x.private_errno ≡ e))

-- The turns go round by one, and each coroutine keeps its errno.
record Turn (w : World) (c : ℕ) (rest : List ℕ) (g : World) : Type 0 where
  sound : IsSound g
  next : current g ≡ c
  order : turns g ≡ rest ++ c ∷ []
  errnos : (t e : ℕ) → HasErrno w t e → HasErrno g t e

yield-HasErrno :
    (w : World) (c : ℕ) (rest : List ℕ) (g : World)
    → IsSound w
    → queue w ≡ c ∷ rest
    → Yielded w c rest g
    → (t e : ℕ) → HasErrno w t e
    → HasErrno g t e
yield-HasErrno w c rest g s q y t e (inl (self, here)) =
    let (x, found, kept) = y.kept in
    inr (ground (arith, y.next, q, s.distinct), (x, ground arith, kept ∙ here))
yield-HasErrno w c rest g s q y t e (inr (apart, (x, found, kept))) = elim (Bool-cases (t == c)) [
  | inl next ↦ let (z, there, restored) = y.restored in inl (ground (arith, y.next), ground arith)
  | inr other ↦
      let (z, there, _) = y.states t x found in
      inr (ground (arith, y.next), (z, there, y.errnos t x z found there apart ∙ kept))
]

uncons-turns :
    (w : World) (c : ℕ) (rest : List ℕ)
    → turns w ≡ c ∷ rest
    → ((queue w ≡ []) × (current w ≡ c) × (rest ≡ []))
      ⊎ ((more : List ℕ) × (queue w ≡ c ∷ more) × (rest ≡ more ++ current w ∷ []))
uncons-turns w c rest e = go (queue w) refl e
  where
    go :
        (q : List ℕ)
        → queue w ≡ q
        → q ++ current w ∷ [] ≡ c ∷ rest
        → ((queue w ≡ []) × (current w ≡ c) × (rest ≡ []))
          ⊎ ((more : List ℕ) × (queue w ≡ c ∷ more) × (rest ≡ more ++ current w ∷ []))
    go [] is e = inl (is, ground arith, ground arith)
    go (x ∷ more) is e = inr (more, is ∙ ground arith, ground arith)

turn_lem :
    (w : World) (c : ℕ) (rest : List ℕ)
    → IsSound w
    → turns w ≡ c ∷ rest
    → Returns (λ _. Turn w c rest) (sched_resched w)
turn_lem w c rest s e = elim (uncons-turns w c rest e) [
  | inl (empty, self, none_left) ↦ rw (sched_resched-nil w empty) (
      returns (record {
        sound = s;
        next = self;
        order = rw (empty, none_left, self) refl;
        errnos = λ t e h. h;
      }))
  | inr (more, q, is) ↦ Returns-mono (sched_resched_lem w c more s q) λ _ g (_, y). record {
    sound = y.sound;
    next = y.next;
    order = rw (y.order, y.next, is) refl;
    errnos = yield-HasErrno w c more g s q y;
  }
]

yields_lem :
    (xs ys : List ℕ) (w : World)
    → IsSound w
    → turns w ≡ xs ++ ys
    → Returns
        (λ cs g.
          (cs ≡ xs)
          × IsSound g
          × (turns g ≡ ys ++ xs)
          × ((t e : ℕ) → HasErrno w t e → HasErrno g t e))
        (yields (length xs) w)
unfolding yields
yields_lem [] ys w s e = returns (refl, s, e ∙ sym (append-nil ys), λ t n h. h)
yields_lem (x ∷ xs) ys w s e = Returns-bind (turn_lem w x (xs ++ ys) s e) λ _ b p.
    Returns-bind (yields_lem xs (ys ++ x ∷ []) b p.sound (p.order ∙ append_assoc xs ys (x ∷ [])))
      λ cs g (same, sound, order, keeps). returns (
        ground (arith, p.next),
        sound,
        order ∙ append_assoc ys (x ∷ []) xs,
        λ t n h. keeps t n (p.errnos t n h),
      )

snoc-inj : (xs ys : List ℕ) (a b : ℕ) → xs ++ a ∷ [] ≡ ys ++ b ∷ [] → (xs ≡ ys) × (a ≡ b)
snoc-inj [] [] a b e = (refl, ground arith)
snoc-inj [] (y ∷ []) a b e = absurd (ground arith)
snoc-inj [] (y ∷ z ∷ ys) a b e = absurd (ground arith)
snoc-inj (x ∷ []) [] a b e = absurd (ground arith)
snoc-inj (x ∷ z ∷ xs) [] a b e = absurd (ground arith)
snoc-inj (x ∷ xs) (y ∷ ys) a b e =
    let (same, last) = snoc-inj xs ys a b (ground arith) in (ground arith, last)

-- From a sound state, when every coroutine that runs gives up its timeslice at once, each one of the
-- thread runs once, in the order of the queue and the caller last; then the queue is as it was, and the
-- caller has its errno again.
pub yields-turns :
    (w : World)
    → IsSound w
    → Returns
        (λ cs g.
          (cs ≡ turns w)
          × IsSound g
          × (current g ≡ current w)
          × (queue g ≡ queue w)
          × (g.lsched.errno ≡ w.lsched.errno))
        (yields (length (turns w)) w)
yields-turns w s =
    Returns-mono (yields_lem (turns w) [] w s (sym (append-nil (turns w))))
      λ cs g (same, sound, order, keeps).
        let (rest, back) = snoc-inj (queue g) (queue w) (current g) (current w) order in
        (
          same,
          sound,
          back,
          rest,
          elim (keeps (current w) w.lsched.errno (inl (ground arith, refl))) [
            | inl (_, kept) ↦ kept
            | inr (apart, _) ↦ absurd (ground (arith, back))
          ],
        )
