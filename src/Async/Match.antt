-- ===== src/Async/Match.antt =====
-- The loop of async.c on the scheduler does what the loop of Async does.
use shproject.Prelude.{
  ℕ, ◌≡◌, refl, subst, ap, ◌⊎◌, ◌∙◌, true, false, Option, none, List, [], ◌∷◌, arith, ◌==◌, inl,
  inr, Bool-cases,
}
use shproject.Prelude.Outcome.{
  Outcome, ok, fault, abort, out_of_fuel, pure, ◌>>=◌, ◌>>◌, Returns, returns, Returns-inv,
}
use shproject.Sched.State.{World}
use shproject.Async.Connect.{pending}
use shproject.Async.{
  Reply, done, failed, Call, event_wait, getsockopt, Try, Io, would_block, has_error, socket_errno,
  retry,
}
use shproject.Async.Retry.{error_run}
use shproject.Async.Waits.{
  Caller, io_of, wait_for, on_io, set_errno, wait_or_return, sched_attempt, sched_retry, IsAlone,
  errno-IsAlone, wait_for-IsAlone,
}

-- Every try that has to wait gets events.
abbrev pub AllCome : List Try → Type 0
AllCome [] = Unit {0}
AllCome (t ∷ tries) = ((t.revents == 0) ≡ false) × AllCome tries

-- A run on the scheduler ends as the run that is given its answers: with the same result, the same errno
-- and the same calls, and with the caller alone beside the event loop, as before.
abbrev pub Matches : ℕ → ℕ → Outcome Io (Option ℕ) → Outcome Caller (Option ℕ) → Type 0
Matches a c (ok v io) o = Returns (λ v' s. (v' ≡ v) × (io_of s ≡ io) × IsAlone a c s.world) o
Matches a c fault o = o ≡ fault
Matches a c abort o = o ≡ abort
Matches a c out_of_fuel o = o ≡ out_of_fuel

-- The world when a call has failed.
abbrev failing : Caller → ℕ → World
failing s errno = record s.world { lsched = record s.world.lsched { errno = errno } }

-- The process when the wait behind the call is over, in the world `g`.
abbrev waited : Call → ℕ → ℕ → Caller → World → Caller
waited call fd events s g = record { world = g; calls = event_wait fd events ∷ call ∷ s.calls }

sched_again :
    (key : ℕ) (call : Call) (fd events errno : ℕ) (t : Try) (tries : List Try) (s : Caller)
    (g : World)
    → t.reply ≡ failed errno
    → would_block errno ≡ true
    → wait_for key fd events t.revents (failing s errno) ≡ ok t.revents g
    → has_error t.revents ≡ false
    → sched_retry key call fd events (t ∷ tries) s
      ≡ sched_retry key call fd events tries (waited call fd events s g)
unfolding sched_retry sched_attempt wait_or_return
sched_again key call fd events errno t tries s g reply blocks run fine =
    rw (reply, blocks, run, fine) refl

-- WAIT_RETURN_SOCKET_ERROR when the events tell of an error.
ended_run :
    (option : Reply) (fd : ℕ) (s : Caller)
    → (do error ← on_io (socket_errno option fd); set_errno error; pure {A = Option ℕ} none) s
      ≡ ok none (record {
        world = record s.world { lsched = record s.world.lsched { errno = pending option } };
        calls = getsockopt fd ∷ s.calls;
      })
unfolding socket_errno
ended_run (done error) fd s = refl
ended_run (failed errno) fd s = refl

sched_error :
    (key : ℕ) (call : Call) (fd events errno : ℕ) (t : Try) (tries : List Try) (s : Caller)
    (g : World)
    → t.reply ≡ failed errno
    → would_block errno ≡ true
    → wait_for key fd events t.revents (failing s errno) ≡ ok t.revents g
    → has_error t.revents ≡ true
    → sched_retry key call fd events (t ∷ tries) s
      ≡ ok none (record {
        world = record g { lsched = record g.lsched { errno = pending t.option } };
        calls = getsockopt fd ∷ event_wait fd events ∷ call ∷ s.calls;
      })
unfolding sched_retry sched_attempt wait_or_return
sched_error key call fd events errno t tries s g reply blocks run bad =
    rw (reply, blocks, run, bad) (ended_run t.option fd (waited call fd events s g))

-- The same of the run that is given its answers.
again_run :
    (call : Call) (fd events errno : ℕ) (t : Try) (tries : List Try) (io : Io)
    → t.reply ≡ failed errno
    → would_block errno ≡ true
    → has_error t.revents ≡ false
    → retry call fd events (t ∷ tries) io
      ≡ retry call fd events tries
          (record { errno = errno; calls = event_wait fd events ∷ call ∷ io.calls })
unfolding retry
again_run call fd events errno t tries io reply blocks fine = ground arith

bad_run :
    (call : Call) (fd events errno : ℕ) (t : Try) (tries : List Try) (io : Io)
    → t.reply ≡ failed errno
    → would_block errno ≡ true
    → has_error t.revents ≡ true
    → retry call fd events (t ∷ tries) io
      ≡ ok none (record {
        errno = pending t.option;
        calls = getsockopt fd ∷ event_wait fd events ∷ call ∷ io.calls;
      })
unfolding retry
bad_run call fd events errno t tries io reply blocks bad =
    rw (reply, blocks)
      (error_run t.option fd events t.revents (retry call fd events tries)
        (record { errno = errno; calls = call ∷ io.calls }) bad)

reply-cases : (r : Reply) → ((n : ℕ) × (r ≡ done n)) ⊎ ((n : ℕ) × (r ≡ failed n))
reply-cases (done n) = inl (n, refl)
reply-cases (failed n) = inr (n, refl)

nil_lem :
    (key : ℕ) (call : Call) (fd events a c : ℕ) (s : Caller)
    → Matches a c (retry call fd events [] (io_of s)) (sched_retry key call fd events [] s)
unfolding retry sched_retry
nil_lem key call fd events a c s = refl

done_lem :
    (tries : List Try) (key : ℕ) (call : Call) (fd events a c result : ℕ) (t : Try) (s : Caller)
    → IsAlone a c s.world
    → t.reply ≡ done result
    → Matches a c
        (retry call fd events (t ∷ tries) (io_of s))
        (sched_retry key call fd events (t ∷ tries) s)
unfolding retry sched_retry sched_attempt
done_lem tries key call fd events a c result t s p reply = rw reply (returns (refl, refl, p))

fails_lem :
    (tries : List Try) (key : ℕ) (call : Call) (fd events a c errno : ℕ) (t : Try) (s : Caller)
    → IsAlone a c s.world
    → t.reply ≡ failed errno
    → would_block errno ≡ false
    → Matches a c
        (retry call fd events (t ∷ tries) (io_of s))
        (sched_retry key call fd events (t ∷ tries) s)
unfolding retry sched_retry sched_attempt
fails_lem tries key call fd events a c errno t s p reply fails =
    rw (reply, fails) (returns (refl, refl, errno-IsAlone a c s.world errno p))

-- From a sound state in which only the event loop is ready beside the caller, and if each wait gets events,
-- the loop on the scheduler ends as the loop that is given the answers: with the same result, errno and
-- calls; or it runs out of answers, as that does. The caller runs then, alone beside the event loop.
pub sched_retry-retry :
    (tries : List Try) (key : ℕ) (call : Call) (fd events a c : ℕ) (s : Caller)
    → IsAlone a c s.world
    → AllCome tries
    → Matches a c (retry call fd events tries (io_of s)) (sched_retry key call fd events tries s)
sched_retry-retry [] key call fd events a c s p come = nil_lem key call fd events a c s
sched_retry-retry (t ∷ tries) key call fd events a c s p (some_events, come) =
    elim (reply-cases t.reply) [
      | inl (result, reply) ↦ done_lem tries key call fd events a c result t s p reply
      | inr (errno, reply) ↦ elim (Bool-cases (would_block errno)) [
        | inr fails ↦ fails_lem tries key call fd events a c errno t s p reply fails
        | inl blocks ↦
            let (r, g, run, (is, alone, kept)) = Returns-inv (
              wait_for-IsAlone a c key fd events t.revents (failing s errno)
                (errno-IsAlone a c s.world errno p) some_events) in
            let back = run ∙ ap (λ n. ok n g) is in
            elim (Bool-cases (has_error t.revents)) [
              | inl bad ↦
                  rw
                    (
                      bad_run call fd events errno t tries (io_of s) reply blocks bad,
                      sched_error key call fd events errno t tries s g reply blocks back bad,
                    )
                    (returns (refl, refl, errno-IsAlone a c g (pending t.option) alone))
              | inr fine ↦
                  let rest =
                    sched_retry-retry tries key call fd events a c (waited call fd events s g) alone
                      come in
                  rw
                    (
                      again_run call fd events errno t tries (io_of s) reply blocks fine,
                      sched_again key call fd events errno t tries s g reply blocks back fine,
                    )
                    (subst
                      (λ e.
                        Matches a c
                          (retry call fd events tries
                            (record { errno = e; calls = event_wait fd events ∷ call ∷ s.calls }))
                          (sched_retry key call fd events tries (waited call fd events s g)))
                      kept rest)
            ]
      ]
    ]
