-- ===== src/Async/Waits.antt =====
-- The loop of async.c on the scheduler: its waits put the caller to sleep, and the event loop wakes it.
use shproject.Prelude.{
  ℕ, ◌≡◌, ◌≢◌, sym, ◌∙◌, false, Option, none, some, List, [], ◌∷◌, ◌==◌, if◌then◌else◌,
}
use shproject.Prelude.Outcome.{
  Outcome, Prog, ok, fault, abort, out_of_fuel, pure, ◌>>=◌, ◌>>◌, Returns, Returns-mono,
}
use shproject.Sched.State.{World}
use shproject.Sched.Core.{sched_resched}
use shproject.Sched.Wait.{event_wait_begin, event_wait_end, dispatch}
use shproject.Sched.Invariant.{queue, current, IsSound}
use shproject.Sched.Poll.{event_wait-roundtrip}
use shproject.Async.{
  Reply, done, failed, Call, event_wait, Try, Io, would_block, has_error, socket_errno,
}

-- The process, and the system calls that were made, latest first. errno is the thread's.
pub record Caller : Type 0 where
  pub world : World
  pub calls : List Call

abbrev pub io_of : Caller → Io
io_of s = record { errno = s.world.lsched.errno; calls = s.calls }

-- sched_event_wait from end to end, when the events that come next are those for this wait.
unfoldable pub wait_for : ℕ → ℕ → ℕ → ℕ → Prog World ℕ
wait_for key fd events revents =
    event_wait_begin key fd events 0
    >> dispatch ((key, revents) ∷ [])
    >> sched_resched
    >> event_wait_end key 0

abbrev pub put_world : {A : Type 0} → Caller → Outcome World A → Outcome Caller A
put_world s (ok a w) = ok a (record s { world = w })
put_world s fault = fault
put_world s abort = abort
put_world s out_of_fuel = out_of_fuel

-- A call that does not wait, on errno and the calls.
abbrev pub put_io : {A : Type 0} → Caller → Outcome Io A → Outcome Caller A
put_io s (ok a io) = ok a (record {
  world = record s.world { lsched = record s.world.lsched { errno = io.errno } };
  calls = io.calls;
})
put_io s fault = fault
put_io s abort = abort
put_io s out_of_fuel = out_of_fuel

abbrev pub on_io : {A : Type 0} → Prog Io A → Prog Caller A
on_io call s = put_io s (call (io_of s))

abbrev pub issue : Call → Prog Caller (Unit {0})
issue call s = ok tt (record s { calls = call ∷ s.calls })

abbrev pub set_errno : ℕ → Prog Caller (Unit {0})
set_errno errno s =
    ok tt (record s { world = record s.world { lsched = record s.world.lsched { errno = errno } } })

-- WAIT_RETURN_SOCKET_ERROR
unfoldable pub wait_or_return : ℕ → ℕ → ℕ → Try → Prog Caller (Option ℕ) → Prog Caller (Option ℕ)
wait_or_return key fd events t again = do
  issue (event_wait fd events)
  revents ← λ s. put_world s (wait_for key fd events t.revents s.world)
  if has_error revents
      then (do error ← on_io (socket_errno t.option fd); set_errno error; pure none)
      else again

unfoldable pub sched_attempt :
    ℕ → ℕ → ℕ → Try → Prog Caller (Option ℕ) → Reply → Prog Caller (Option ℕ)
sched_attempt key fd events t again (done result) = pure (some result)
sched_attempt key fd events t again (failed errno) = do
  set_errno errno
  if would_block errno then wait_or_return key fd events t again else pure none

-- The loop that the five transfers share; `key` is where their `struct event_wait` stands.
unfoldable pub sched_retry : ℕ → Call → ℕ → ℕ → List Try → Prog Caller (Option ℕ)
sched_retry key call fd events [] = λ _. out_of_fuel
sched_retry key call fd events (t ∷ tries) =
    let again = sched_retry key call fd events tries in
    do issue call; sched_attempt key fd events t again t.reply

-- Only the event loop is ready beside the caller.
pub record IsAlone (a c : ℕ) (w : World) : Type 0 where
  pub sound : IsSound w
  pub caller : current w ≡ a
  pub only : queue w ≡ c ∷ []
  pub loop : w.lsched.event_loop_coro ≢ a

errno-IsSound :
    (w : World) (errno : ℕ)
    → IsSound w
    → IsSound (record w { lsched = record w.lsched { errno = errno } })
errno-IsSound w errno s = record {
  lock = s.lock;
  distinct = s.distinct;
  nonnull = s.nonnull;
  ready = s.ready;
  running = s.running;
  looping = s.looping;
}

pub errno-IsAlone :
    (a c : ℕ) (w : World) (errno : ℕ)
    → IsAlone a c w
    → IsAlone a c (record w { lsched = record w.lsched { errno = errno } })
errno-IsAlone a c w errno p = record {
  sound = errno-IsSound w errno p.sound;
  caller = p.caller;
  only = p.only;
  loop = p.loop;
}

pub wait_for-IsAlone :
    (a c key fd events revents : ℕ) (w : World)
    → IsAlone a c w
    → (revents == 0) ≡ false
    → Returns
        (λ r g. (r ≡ revents) × IsAlone a c g × (g.lsched.errno ≡ w.lsched.errno))
        (wait_for key fd events revents w)
unfolding wait_for
wait_for-IsAlone a c key fd events revents w p some_events =
    Returns-mono
      (event_wait-roundtrip w key fd events revents c p.sound p.only (λ e. p.loop (e ∙ p.caller))
        some_events)
      (λ r g (is, sound, same, order, errno, loop, calls). (
        is,
        record {
          sound = sound;
          caller = same ∙ p.caller;
          only = order;
          loop = λ e. p.loop (sym loop ∙ e);
        },
        errno,
      ))
