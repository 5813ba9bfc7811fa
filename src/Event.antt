-- ===== src/Event.antt =====
-- bench/webserver/eventlib.c: I/O on callbacks.
-- The kernel is a parameter: `replies` is what the next system calls answer, in order. A callback is
-- a value of a type `C`; `call` is what calling one does. What else the program keeps is an `A`.
pub mod Calls
pub mod Resume
pub mod Write
mod Tests
use shproject.Prelude.{
  ℕ, ◌+◌, ◌-◌, Bool, true, false, not, ◌&&◌, ◌||◌, Option, none, some, List, [], ◌∷◌, ◌==◌,
  if◌then◌else◌,
}
use shproject.Prelude.Int.{ℤ, pos, sub_ℕ}
use shproject.Prelude.Outcome.{Prog, ok, fault, out_of_fuel, pure, and_then, ◌>>=◌, ◌>>◌, assert}
use shproject.Heap.{update}
use shproject.Async.{Reply, done, failed, eagain, ewouldblock, would_block}
use shproject.Sched.Wait.{epollet, epolloneshot}
use Prim.Native.Nat.{bit_and, bit_or}

-- EPOLLIN, EPOLLOUT and EPOLLERR
abbrev pub epollin : ℕ
epollin = 1

abbrev pub epollout : ℕ
epollout = 4

abbrev pub epollerr : ℕ
epollerr = 8

-- `enum wait_type`
pub data WaitType : Type 0 where
  wait_accept wait_read wait_write : WaitType

-- `struct waiter`; `epoll_fd` is that of its loop, which never changes, and `cb` is the member of the
-- union that `wait_type` names.
pub record Waiter (C : Type 0) : Type 0 where
  pub epoll_fd : ℕ
  pub wait_type : WaitType
  pub cb : C
  pub fd : ℕ
  pub buffer : ℕ
  pub length : ℕ
  pub num_written : ℕ
  pub flags : ℕ

-- A system call.
pub data Sys : Type 0 where
  accept4 getsockopt close setsockopt bind listen : (fd : ℕ) → Sys
  socket epoll_create1 sched_getaffinity : Sys
  pthread_create : Sys
  recv send : (fd buffer length flags : ℕ) → Sys
  epoll_add : (epoll_fd fd events key : ℕ) → Sys
  epoll_del : (epoll_fd fd : ℕ) → Sys

-- The state of the process; `calls` are the system calls that were made, latest first. `fresh` is
-- what malloc returns next.
pub record Net (C A : Type 0) : Type 0 where
  pub waiters : ℕ → Option (Waiter C)
  pub app : A
  pub replies : List Reply
  pub calls : List Sys
  pub fresh : List ℕ

-- `-n`
abbrev pub neg : ℕ → ℤ
neg n = sub_ℕ 0 n

abbrev pub has_event : ℕ → ℕ → Bool
has_event events event = not (bit_and events event == 0)

abbrev pub is_zero : Reply → Bool
is_zero (done n) = n == 0
is_zero (failed errno) = false

-- getsockopt answers the error that is pending on the socket.
abbrev pub negated : Reply → ℤ
negated (done error) = neg error
negated (failed errno) = neg errno

module _ {C A : Type 0} where
  -- A read through a pointer to a waiter: a fault if it was freed.
  unfoldable pub get_waiter : ℕ → Prog (Net C A) (Waiter C)
  get_waiter p n = elim (n.waiters p) [ none ↦ fault | some w ↦ ok w n ]

  abbrev pub put_waiter : ℕ → Waiter C → Prog (Net C A) (Unit {0})
  put_waiter p w n = ok tt (record n { waiters = update n.waiters p (some w) })

  unfoldable pub system : Sys → Prog (Net C A) Reply
  system sys n = elim n.replies [
    | [] ↦ out_of_fuel
    | reply ∷ rest ↦ ok reply (record n { replies = rest; calls = sys ∷ n.calls })
  ]

  unfoldable pub socket_errno : ℕ → Prog (Net C A) ℤ
  unfolding system
  socket_errno fd = do reply ← system (getsockopt fd); pure (negated reply)

  unfoldable pub arm_waiter : ℕ → ℕ → Prog (Net C A) (Unit {0})
  unfolding get_waiter system
  arm_waiter p events = do
    w ← get_waiter p
    result ← system (epoll_add w.epoll_fd w.fd (bit_or (bit_or events epollet) epolloneshot) p)
    assert (is_zero result)

  -- `waiter` points into memory that holds `w`.
  unfoldable pub async_init_waiter : ℕ → Waiter C → ℕ → ℕ → Prog (Net C A) (Unit {0})
  async_init_waiter p w epoll_fd fd = put_waiter p (record w { epoll_fd = epoll_fd; fd = fd })

  module _ (call : C → ℕ → ℤ → Prog (Net C A) (Unit {0})) where
    -- `errno != EAGAIN || errno != EWOULDBLOCK`, unlike its siblings.
    unfoldable pub accepted : ℕ → C → Reply → Prog (Net C A) (Unit {0})
    unfolding arm_waiter
    accepted p cb (done new_sock) = call cb p (pos new_sock)
    accepted p cb (failed errno) = do
      if not (errno == eagain) || not (errno == ewouldblock) then call cb p (neg errno) else pure tt
      arm_waiter p epollin

    unfoldable pub handle_accept : ℕ → ℕ → Prog (Net C A) (Unit {0})
    unfolding get_waiter system socket_errno accepted
    handle_accept events p = do
      w ← get_waiter p
      if has_event events epollerr then (do error ← socket_errno w.fd; call w.cb p error) else (do
        assert (has_event events epollin)
        reply ← system (accept4 w.fd)
        accepted p w.cb reply)

    unfoldable pub received : ℕ → C → Reply → Prog (Net C A) (Unit {0})
    unfolding arm_waiter would_block
    received p cb (done num_read) = call cb p (pos num_read)
    received p cb (failed errno) = do
      if not (would_block errno) then call cb p (neg errno) else pure tt
      arm_waiter p epollin

    unfoldable pub handle_read : ℕ → ℕ → Prog (Net C A) (Unit {0})
    unfolding get_waiter system socket_errno received
    handle_read events p = do
      w ← get_waiter p
      if has_event events epollerr then (do error ← socket_errno w.fd; call w.cb p error) else (do
        assert (has_event events epollin)
        reply ← system (recv w.fd w.buffer w.length w.flags)
        received p w.cb reply)

    unfoldable pub sent : ℕ → Waiter C → Reply → Prog (Net C A) (Unit {0})
    unfolding arm_waiter would_block
    sent p w (failed errno) = do
      if not (would_block errno) then call w.cb p (neg errno) else pure tt
      arm_waiter p epollout
    sent p w (done num_written) = do
      put_waiter p (record w { num_written = w.num_written + num_written })
      if w.num_written + num_written == w.length
          then call w.cb p (pos num_written)
          else arm_waiter p epollout

    unfoldable pub handle_write : ℕ → ℕ → Prog (Net C A) (Unit {0})
    unfolding get_waiter system socket_errno sent
    handle_write events p = do
      w ← get_waiter p
      if has_event events epollerr then (do error ← socket_errno w.fd; call w.cb p error) else (do
        assert (has_event events epollout)
        reply ← system (send w.fd (w.buffer + w.num_written) (w.length - w.num_written) w.flags)
        sent p w reply)

    -- The `switch`.
    unfoldable pub handle : WaitType → ℕ → ℕ → Prog (Net C A) (Unit {0})
    unfolding handle_accept handle_read handle_write
    handle wait_accept = handle_accept
    handle wait_read = handle_read
    handle wait_write = handle_write

    unfoldable pub handle_event : ℕ → ℕ → Prog (Net C A) (Unit {0})
    unfolding get_waiter system handle
    handle_event p events = do
      w ← get_waiter p
      result ← system (epoll_del w.epoll_fd w.fd)
      assert (is_zero result)
      handle w.wait_type events p
