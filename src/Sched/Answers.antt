-- ===== src/Sched/Answers.antt =====
-- platform_poll_poll: every event of every answer is handled.
use mathlib.Core.List.{append_assoc}
use shproject.Prelude.{
  ℕ, ◌≡◌, refl, Bool, true, false, not, ◌&&◌, List, [], ◌∷◌, ◌++◌, ltb, length, Bool-cases, inl,
  inr, arith,
}
use shproject.Prelude.Outcome.{Prog, Outcome, ok, fault, abort, out_of_fuel, pure, and_then, ◌>>◌}
use shproject.Sched.State.{World}
use shproject.Sched.Wait.{
  Answer, ready, interrupted, failed, max_events, dispatch, platform_poll_poll,
}

-- The poll asks again after this answer.
abbrev goes_on : Answer → Bool
goes_on (ready events) = not (ltb (length events) max_events)
goes_on interrupted = true
goes_on failed = false

abbrev pub all_go_on : List Answer → Bool
all_go_on [] = true
all_go_on (answer ∷ answers) = goes_on answer && all_go_on answers

-- The events of the answers, in order.
abbrev pub events_of : List Answer → List (ℕ × ℕ)
events_of [] = []
events_of (ready events ∷ answers) = events ++ events_of answers
events_of (interrupted ∷ answers) = events_of answers
events_of (failed ∷ answers) = events_of answers

and_then-step :
    {A B C : Type 0} (o : Outcome World A) (f : Prog World B) (g h : Prog World C)
    → ((w : World) → h w ≡ and_then (f w) (λ _. g))
    → and_then o (λ _. h) ≡ and_then (and_then o (λ _. f)) (λ _. g)
and_then-step (ok a w) f g h e = e w
and_then-step fault f g h e = refl
and_then-step abort f g h e = refl
and_then-step out_of_fuel f g h e = refl

dispatch-append :
    (xs ys : List (ℕ × ℕ)) (w : World)
    → dispatch (xs ++ ys) w ≡ and_then (dispatch xs w) (λ _. dispatch ys)
unfolding dispatch
dispatch-append [] ys w = refl
dispatch-append ((key, revents) ∷ xs) ys w =
    and_then-step _ (dispatch xs) (dispatch ys) (dispatch (xs ++ ys)) (dispatch-append xs ys)

-- The poll goes on over interruptions and full answers, up to the first answer with fewer than
-- MAX_EVENTS events, and returns 0 when every event up to there was handled once, in order.
pub platform_poll_poll_lem :
    (before after : List Answer) (last : List (ℕ × ℕ)) (w : World)
    → all_go_on before ≡ true
    → ltb (length last) max_events ≡ true
    → platform_poll_poll (before ++ ready last ∷ after) w
      ≡ (dispatch (events_of before ++ last) >> pure true) w
unfolding platform_poll_poll
platform_poll_poll_lem [] after last w go short = rw short refl
platform_poll_poll_lem (interrupted ∷ before) after last w go short =
    platform_poll_poll_lem before after last w go short
platform_poll_poll_lem (failed ∷ before) after last w go short = cc
platform_poll_poll_lem (ready events ∷ before) after last w go short =
    elim (Bool-cases (ltb (length events) max_events)) [
      | inl few ↦ absurd (ground arith)
      | inr full ↦
          rw
            (
              full,
              append_assoc events (events_of before) last,
              dispatch-append events (events_of before ++ last) w,
            )
            (and_then-step (dispatch events w) (dispatch (events_of before ++ last)) (pure true)
              (platform_poll_poll (before ++ ready last ∷ after))
              (λ g. platform_poll_poll_lem before after last g (ground arith) short))
    ]
