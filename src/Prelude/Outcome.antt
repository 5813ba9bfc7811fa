-- ===== src/Prelude/Outcome.antt =====
-- How a run of a C function ends, and the state monad over it.
use mathlib.Core.Path.{◌≡◌, refl}
use mathlib.Core.Bool.{Bool, true, false}

-- A value and the new state; undefined behaviour, such as a read through a bad pointer; a failed
-- `assert` or a call of `exit`; or the model's fuel running out.
pub data Outcome (S A : Type 0) : Type 0 where
  ok : A → S → Outcome S A
  fault abort out_of_fuel : Outcome S A

abbrev pub Prog : Type 0 → Type 0 → Type 0
Prog S A = S → Outcome S A

abbrev pub pure : {S A : Type 0} → A → Prog S A
pure = ok

abbrev pub and_then : {S A B : Type 0} → Outcome S A → (A → Prog S B) → Outcome S B
and_then (ok a s) k = k a s
and_then fault k = fault
and_then abort k = abort
and_then out_of_fuel k = out_of_fuel

infixl 5 ◌>>=◌ ◌>>◌
abbrev pub ◌>>=◌ : {S A B : Type 0} → Prog S A → (A → Prog S B) → Prog S B
m >>= k = λ s. and_then (m s) k

abbrev pub ◌>>◌ : {S A B : Type 0} → Prog S A → Prog S B → Prog S B
m >> n = m >>= λ _. n

abbrev pub assert : {S : Type 0} → Bool → Prog S (Unit {0})
assert true = ok tt
assert false = λ _. abort

-- Total correctness of a run: no fault, no failed assertion, enough fuel, and a postcondition.
pub data Returns {S A : Type 0} (P : A → S → Type 0) : Outcome S A → Type 0 where
  returns : {a : A} {s : S} → P a s → Returns P (ok a s)

module _ {S A : Type 0} {P : A → S → Type 0} where
  pub Returns-bind :
      {B : Type 0} {Q : B → S → Type 0} {r : Outcome S A} {k : A → Prog S B}
      → Returns P r
      → ((a : A) (s : S) → P a s → Returns Q (k a s))
      → Returns Q (and_then r k)
  Returns-bind (returns p) next = next _ _ p

  pub Returns-mono :
      {Q : A → S → Type 0} {r : Outcome S A}
      → Returns P r
      → ((a : A) (s : S) → P a s → Q a s)
      → Returns Q r
  Returns-mono (returns p) weaken = returns (weaken _ _ p)

  pub Returns-inv : {r : Outcome S A} → Returns P r → (a : A) × (s : S) × (r ≡ ok a s) × P a s
  Returns-inv (returns p) = (_, _, refl, p)
