-- ===== src/Async.antt =====
-- async.c: system calls that suspend the calling coroutine where they would block.
-- The kernel is a parameter: what each try of a system call answers, the events that
-- sched_event_wait returns after it, and what getsockopt(SO_ERROR) answers. A state keeps errno and
-- the calls that were made, latest first.
use shproject.Prelude.{
  ℕ, ◌+◌, ◌*◌, ◌-◌, ◌/◌, ◌%◌, Bool, true, false, not, ◌||◌, Option, none, some, List, [], ◌∷◌, ltb,
  ◌==◌, if◌then◌else◌,
}
use shproject.Prelude.Outcome.{Prog, ok, out_of_fuel, pure, and_then, ◌>>=◌, ◌>>◌}
use shproject.Timer.{Timespec}
use shproject.Sched.State.{World, Control}
use shproject.Sched.Wait.{sched_wait}
use Prim.Native.Nat.{bit_and}
pub mod Retry
pub mod Connect
pub mod Sleep
pub mod Waits
pub mod Match
mod Tests

-- errno.h
abbrev pub eagain : ℕ
eagain = 11

abbrev pub ewouldblock : ℕ
ewouldblock = 11

abbrev pub einprogress : ℕ
einprogress = 115

-- WAITIN, WAITOUT and WAITERR, from sys/epoll.h
abbrev pub waitin : ℕ
waitin = 1

abbrev pub waitout : ℕ
waitout = 4

abbrev pub waiterr : ℕ
waiterr = 8

-- A system call's answer: a result that is not negative, or -1 with an errno.
pub data Reply : Type 0 where
  done failed : ℕ → Reply

pub data Call : Type 0 where
  read write : (fd buffer length : ℕ) → Call
  accept : (socket address length : ℕ) → Call
  connect : (socket address length : ℕ) → Call
  send recv : (socket buffer length flags : ℕ) → Call
  event_wait : (fd events : ℕ) → Call
  getsockopt : (fd : ℕ) → Call

pub record Io : Type 0 where
  pub errno : ℕ
  pub calls : List Call

-- A try of a system call, the events that come if it has to wait, and the socket's error then.
pub record Try : Type 0 where
  pub reply : Reply
  pub revents : ℕ
  pub option : Reply

abbrev pub issue : Call → Prog Io (Unit {0})
issue call io = ok tt (record io { calls = call ∷ io.calls })

abbrev pub set_errno : ℕ → Prog Io (Unit {0})
set_errno errno io = ok tt (record io { errno = errno })

-- `option` is what getsockopt answers: the error that is pending on the socket, or a failure.
unfoldable pub socket_errno : Reply → ℕ → Prog Io ℕ
socket_errno (done error) fd = do issue (getsockopt fd); pure error
socket_errno (failed errno) fd = do
  issue (getsockopt fd)
  set_errno errno
  io ← λ s. ok s s
  pure io.errno

unfoldable pub would_block : ℕ → Bool
would_block errno = (errno == eagain) || (errno == ewouldblock)

unfoldable pub has_error : ℕ → Bool
has_error revents = not (bit_and revents waiterr == 0)

-- WAIT_RETURN_SOCKET_ERROR: `again` is what follows it. The result -1 is `none`.
unfoldable pub wait_return_socket_error :
    ℕ → ℕ → ℕ → Reply → Prog Io (Option ℕ) → Prog Io (Option ℕ)
unfolding socket_errno has_error
wait_return_socket_error fd events revents option again = do
  issue (event_wait fd events)
  if has_error revents
      then (do error ← socket_errno option fd; set_errno error; pure none)
      else again

-- One round of the `for (;;)`: `call` was made, `again` is the next round.
unfoldable pub attempt : ℕ → ℕ → Try → Prog Io (Option ℕ) → Reply → Prog Io (Option ℕ)
unfolding wait_return_socket_error would_block
attempt fd events t again (done result) = pure (some result)
attempt fd events t again (failed errno) = do
  set_errno errno
  if would_block errno
      then wait_return_socket_error fd events t.revents t.option again
      else pure none

-- The loop that async_read, async_write, async_accept, async_send and async_recv share.
unfoldable pub retry : Call → ℕ → ℕ → List Try → Prog Io (Option ℕ)
unfolding attempt
retry call fd events [] = λ _. out_of_fuel
retry call fd events (t ∷ tries) =
    let again = retry call fd events tries in do issue call; attempt fd events t again t.reply

unfoldable pub async_read : ℕ → ℕ → ℕ → List Try → Prog Io (Option ℕ)
unfolding retry
async_read fd buffer length tries = retry (read fd buffer length) fd waitin tries

unfoldable pub async_write : ℕ → ℕ → ℕ → List Try → Prog Io (Option ℕ)
unfolding retry
async_write fd buffer length tries = retry (write fd buffer length) fd waitout tries

unfoldable pub async_accept : ℕ → ℕ → ℕ → List Try → Prog Io (Option ℕ)
unfolding retry
async_accept socket address length tries = retry (accept socket address length) socket waitin tries

unfoldable pub async_send : ℕ → ℕ → ℕ → ℕ → List Try → Prog Io (Option ℕ)
unfolding retry
async_send socket buffer length flags tries =
    retry (send socket buffer length flags) socket waitout tries

unfoldable pub async_recv : ℕ → ℕ → ℕ → ℕ → List Try → Prog Io (Option ℕ)
unfolding retry
async_recv socket buffer length flags tries =
    retry (recv socket buffer length flags) socket waitin tries

-- The end of async_connect, with the error that socket_errno gave.
unfoldable pub connect_result : ℕ → Prog Io (Option ℕ)
connect_result error = if not (error == 0) then (do set_errno error; pure none) else pure (some 0)

unfoldable pub connect_reply : ℕ → Reply → Reply → Prog Io (Option ℕ)
unfolding socket_errno connect_result
connect_reply socket option (done result) = pure (some 0)
connect_reply socket option (failed errno) = do
  set_errno errno
  if not (errno == einprogress) then pure none else (do
    issue (event_wait socket waitout)
    error ← socket_errno option socket
    connect_result error)

-- connect answers 0 or -1.
unfoldable pub async_connect : ℕ → ℕ → ℕ → Reply → Reply → Prog Io (Option ℕ)
unfolding connect_reply
async_connect socket address length reply option = do
  issue (connect socket address length)
  connect_reply socket option reply

-- The deadline that async_sleep_relative gives to sched_wait, for a time that is not negative.
unfoldable pub sleep_deadline : Timespec → ℕ → Timespec
sleep_deadline now millisecs =
    let sec = now.sec + millisecs / 1000 in
    let nsec = now.nsec + millisecs % 1000 * 1_000_000 in
    if ltb 1_000_000_000 nsec
    then record { sec = sec + 1; nsec = nsec - 1_000_000_000 }
    else record { sec = sec; nsec = nsec }

unfoldable pub async_sleep_relative : Bool → Timespec → ℕ → Prog World Control
unfolding sleep_deadline sched_wait
async_sleep_relative granted now millisecs = sched_wait granted (sleep_deadline now millisecs)

unfoldable pub async_sleep_absolute : Bool → Timespec → Prog World Control
unfolding sched_wait
async_sleep_absolute granted time = sched_wait granted time
