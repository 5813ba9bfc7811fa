-- ===== src/Event/Calls.antt =====
-- The calls of bench/webserver/eventlib.c, and its loop. A result below 0 is -errno.
use shproject.Prelude.{ℕ, not, List, [], ◌∷◌, ◌==◌, if◌then◌else◌}
use shproject.Prelude.Int.{ℤ, pos}
use shproject.Prelude.Outcome.{Prog, out_of_fuel, pure, ◌>>=◌, ◌>>◌}
use shproject.Async.{Reply, done, failed, would_block}
use shproject.Web.{eintr}
use shproject.Event.{
  wait_accept, wait_read, wait_write, accept4, epoll_create1, recv, send, Net, neg, epollin,
  epollout, get_waiter, put_waiter, system, arm_waiter, handle_event,
}

-- An answer of epoll_wait: the keys and events, or -1 with an errno.
pub data Poll : Type 0 where
  events : List (ℕ × ℕ) → Poll
  error : ℕ → Poll

-- -1 as the `int` that a struct keeps.
abbrev pub minus_one : ℕ
minus_one = 0xffff_ffff

abbrev made : Reply → ℤ × ℕ
made (done epoll_fd) = (pos 0, epoll_fd)
made (failed errno) = (neg errno, minus_one)

-- What async_init_loop returns, and the `epoll_fd` of the loop.
unfoldable pub async_init_loop : {C A : Type 0} → Prog (Net C A) (ℤ × ℕ)
unfolding system
async_init_loop = do reply ← system epoll_create1; pure (made reply)

module _ {C A : Type 0} (call : C → ℕ → ℤ → Prog (Net C A) (Unit {0})) where
  unfoldable pub accept_reply : ℕ → C → Reply → Prog (Net C A) ℤ
  unfolding get_waiter arm_waiter would_block
  accept_reply p on_accept (done new_sock) = do call on_accept p (pos new_sock); pure (pos new_sock)
  accept_reply p on_accept (failed errno) =
      if not (would_block errno) then pure (neg errno) else (do
        w ← get_waiter p
        put_waiter p (record w { wait_type = wait_accept; cb = on_accept })
        arm_waiter p epollin
        pure (pos 0))

  unfoldable pub async_accept : ℕ → C → Prog (Net C A) ℤ
  unfolding get_waiter system accept_reply
  async_accept p on_accept = do
    w ← get_waiter p
    reply ← system (accept4 w.fd)
    accept_reply p on_accept reply

  unfoldable pub recv_reply : ℕ → ℕ → ℕ → ℕ → C → Reply → Prog (Net C A) ℤ
  unfolding get_waiter arm_waiter would_block
  recv_reply p buffer length flags on_read (done num_read) = do
    call on_read p (pos num_read)
    pure (pos num_read)
  recv_reply p buffer length flags on_read (failed errno) =
      if not (would_block errno) then pure (neg errno) else (do
        w ← get_waiter p
        put_waiter p (record w {
          wait_type = wait_read;
          cb = on_read;
          flags = flags;
          buffer = buffer;
          length = length;
        })
        arm_waiter p epollin
        pure (pos 0))

  unfoldable pub async_recv : ℕ → ℕ → ℕ → ℕ → C → Prog (Net C A) ℤ
  unfolding get_waiter system recv_reply
  async_recv p buffer length flags on_read = do
    w ← get_waiter p
    reply ← system (recv w.fd buffer length flags)
    recv_reply p buffer length flags on_read reply

  unfoldable pub send_reply : ℕ → ℕ → ℕ → ℕ → C → Reply → Prog (Net C A) ℤ
  unfolding get_waiter arm_waiter would_block
  send_reply p buffer length flags on_write (done num_written) = do
    call on_write p (pos num_written)
    pure (pos num_written)
  send_reply p buffer length flags on_write (failed errno) =
      if not (would_block errno) then pure (neg errno) else (do
        w ← get_waiter p
        put_waiter p (record w {
          wait_type = wait_write;
          cb = on_write;
          flags = flags;
          buffer = buffer;
          length = length;
          num_written = 0;
        })
        arm_waiter p epollout
        pure (pos 0))

  unfoldable pub async_send : ℕ → ℕ → ℕ → ℕ → C → Prog (Net C A) ℤ
  unfolding get_waiter system send_reply
  async_send p buffer length flags on_write = do
    w ← get_waiter p
    reply ← system (send w.fd buffer length flags)
    send_reply p buffer length flags on_write reply

  -- The `for` over the events of one answer.
  unfoldable pub handle_events : List (ℕ × ℕ) → Prog (Net C A) (Unit {0})
  unfolding handle_event
  handle_events [] = pure tt
  handle_events ((p, revents) ∷ rest) = handle_event call p revents >> handle_events rest

  -- It returns only when epoll_wait fails.
  unfoldable pub async_run_loop : List Poll → Prog (Net C A) ℤ
  unfolding handle_events
  async_run_loop [] = λ _. out_of_fuel
  async_run_loop (error errno ∷ answers) =
      let again = async_run_loop answers in if errno == eintr then again else pure (neg errno)
  async_run_loop (events ready ∷ answers) = handle_events ready >> async_run_loop answers
