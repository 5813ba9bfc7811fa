-- ===== src/Sched/Threads/Places.antt =====
-- Where each coroutine is: asleep, in a thread's queue, running on a thread, or about to sleep there.
use shproject.Prelude.{
  ℕ, ◌≡◌, ◌≢◌, ◌<◌, Bool, true, false, Option, none, some, ◌∷◌, ◌==◌, ltb, has, ◌∈◌, IsDistinct,
}
use shproject.Sched.State.{blocked, nothing, at_suspend, Coroutine}
use shproject.Sched.Threads.{Machine}

pub data Place : Type 0 where
  asleep : Place
  queued running parked : ℕ → Place

abbrev pub queued_on : ℕ → Place → Bool
queued_on i (queued j) = i == j
queued_on i asleep = false
queued_on i (running j) = false
queued_on i (parked j) = false

abbrev pub runs_on : ℕ → Place → Bool
runs_on i (running j) = i == j
runs_on i asleep = false
runs_on i (queued j) = false
runs_on i (parked j) = false

abbrev pub parked_on : ℕ → Place → Bool
parked_on i (parked j) = i == j
parked_on i asleep = false
parked_on i (queued j) = false
parked_on i (running j) = false

-- The place is on one of the first `n` threads.
abbrev pub in_range : ℕ → Place → Bool
in_range n asleep = true
in_range n (queued i) = ltb i n
in_range n (running i) = ltb i n
in_range n (parked i) = ltb i n

abbrev pub is_pending : ℕ → Option ℕ → Bool
is_pending c none = false
is_pending c (some a) = a == c

abbrev pub is_some : Option ℕ → Bool
is_some none = false
is_some (some a) = true

-- What the record of a coroutine says at its place. Only a coroutine that sleeps is in STATE_BLOCKED,
-- but for the main thread's event loop.
abbrev pub Fits : ℕ → ℕ → Place → Coroutine → Type 0
Fits main c asleep x = (x.linked ≡ false) × (x.state ≡ blocked) × (x.context ≢ nothing)
Fits main c (queued i) x =
    (x.linked ≡ true) × (x.state ≡ blocked → c ≡ main) × (x.context ≢ nothing)
Fits main c (running i) x = (x.linked ≡ false) × (x.state ≡ blocked → c ≡ main)
Fits main c (parked i) x = (x.linked ≡ false) × (x.state ≢ blocked) × (x.context ≡ at_suspend)

-- The queues, the running coroutines and those about to sleep are what `place` says, and every
-- coroutine's record fits its place.
pub record IsPlaced (n main : ℕ) (m : Machine) (place : ℕ → Place) : Type 0 where
  pub in_queue : (i : ℕ) → i < n → (c : ℕ) → has c (m.locals i).run_list ≡ queued_on i (place c)
  pub in_turn : (i : ℕ) → i < n → (c : ℕ) → ((m.locals i).current_coro == c) ≡ runs_on i (place c)
  pub in_park : (i : ℕ) → i < n → (c : ℕ) → is_pending c (m.pending i) ≡ parked_on i (place c)
  pub range : (c : ℕ) → in_range n (place c) ≡ true
  pub distinct : (i : ℕ) → i < n → IsDistinct (m.locals i).run_list
  pub lock : (i : ℕ) → i < n → (m.locals i).preempt_lock ≡ is_some (m.pending i)
  pub loop :
      (i : ℕ)
      → i < n
      → (m.locals i).event_loop_coro ∈ ((m.locals i).current_coro ∷ (m.locals i).run_list)
  pub fits : (c : ℕ) (x : Coroutine) → m.shared.coros c ≡ some x → Fits main c (place c) x
  pub live : (c : ℕ) → m.shared.coros c ≡ none → place c ≡ asleep
  pub next :
      (i : ℕ)
      → i < n
      → (y : Coroutine) → is_some (m.pending i) ≡ true
      → m.shared.coros (m.locals i).current_coro ≡ some y
      → y.context ≢ nothing
  pub null : place 0 ≡ asleep

-- The threads' schedulers and the coroutines agree on where every coroutine is.
abbrev pub IsConsistent : ℕ → Machine → Type 0
IsConsistent main m = (place : ℕ → Place) × IsPlaced m.threads main m place
