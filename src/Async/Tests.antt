-- ===== src/Async/Tests.antt =====
-- The calls of async.c on concrete answers of the kernel.
use shproject.Prelude.{ℕ, ◌+◌, ◌*◌, ◌≤◌, ◌≡◌, refl, none, [], ◌∷◌, arith}
use shproject.Prelude.Outcome.{Returns}
use shproject.Timer.{Timespec, nanos}
use shproject.Async.{
  Reply, done, failed, Call, recv, event_wait, getsockopt, Try, Io, would_block, has_error, retry,
  waitin, async_connect, sleep_deadline,
}
use shproject.Async.Retry.{errs, retry_lem}
use shproject.Sched.Examples.{three, three-IsSound}
use shproject.Async.Waits.{Caller, io_of, sched_retry, IsAlone}
use shproject.Async.Match.{Matches, sched_retry-retry}
use shproject.Async.Connect.{Connected, async_connect_lem}
use shproject.Async.Sleep.{sleep_deadline_lem}

abbrev idle : Io
idle = record { errno = 0; calls = [] }

abbrev try : Reply → ℕ → Reply → Try
try reply revents option = record { reply = reply; revents = revents; option = option }

abbrev receive : Call
receive = recv 5 4096 256 0

abbrev blocked : Try
blocked = try (failed 11) 1 (done 0)

retry_lem_example :
    Returns
      (λ v g.
        (v ≡ none)
        × (g.errno ≡ 104)
        × (g.calls ≡ getsockopt 5 ∷ event_wait 5 1 ∷ receive ∷ event_wait 5 1 ∷ receive ∷ []))
      (retry receive 5 waitin (blocked ∷ try (failed 11) 9 (done 104) ∷ []) idle)
unfolding would_block has_error
retry_lem_example =
    retry_lem (errs 11) receive 5 waitin (blocked ∷ []) [] (try (failed 11) 9 (done 104)) idle refl
      (refl, refl, refl)

-- The coroutine 1 of Sched/Examples, which runs, beside the event loop 2.
abbrev caller : Caller
caller = record { world = three; calls = [] }

caller-IsAlone : IsAlone 1 2 three
caller-IsAlone = record {
  sound = three-IsSound;
  caller = refl;
  only = refl;
  loop = λ e. absurd (omega arith);
}

sched_retry-retry_example :
    Matches 1 2
      (retry receive 5 waitin (blocked ∷ try (done 7) 1 (done 0) ∷ []) (io_of caller))
      (sched_retry 91 receive 5 waitin (blocked ∷ try (done 7) 1 (done 0) ∷ []) caller)
sched_retry-retry_example =
    sched_retry-retry (blocked ∷ try (done 7) 1 (done 0) ∷ []) 91 receive 5 waitin 1 2 caller
      caller-IsAlone (refl, (refl, tt))

async_connect_lem_example :
    Returns (Connected 5 4096 16 111 idle) (async_connect 5 4096 16 (failed 115) (done 111) idle)
async_connect_lem_example = async_connect_lem 5 4096 16 (failed 115) (done 111) idle refl

abbrev half_past : Timespec
half_past = record { sec = 7; nsec = 500_000_000 }

sleep_deadline_lem_example :
    (nanos (sleep_deadline half_past 1700) ≡ nanos half_past + 1700 * 1_000_000)
    × ((sleep_deadline half_past 1700).nsec ≤ 1_000_000_000)
sleep_deadline_lem_example = sleep_deadline_lem half_past 1700 (omega arith)
