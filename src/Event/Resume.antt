-- ===== src/Event/Resume.antt =====
-- async_recv and async_accept that would block, and the event that completes them.
use shproject.Prelude.{ℕ, ◌≡◌, true, false, none, some, List, ◌∷◌, arith}
use shproject.Prelude.Int.{ℤ, pos}
use shproject.Prelude.Outcome.{Prog, ok, fault, ◌>>◌}
use shproject.Heap.{update}
use shproject.Async.{Reply, done, failed, would_block}
use shproject.Sched.Wait.{epollet, epolloneshot}
use shproject.Event.{
  wait_read, Waiter, Sys, recv, epoll_add, epoll_del, Net, neg, has_event, epollin, epollerr,
  handle_event, handle_read,
}
use shproject.Event.Calls.{async_recv}
use Prim.Native.Nat.{bit_or}

-- The call of epoll_ctl that arms a waiter.
abbrev pub armed : {C : Type 0} → ℕ → Waiter C → ℕ → Sys
armed p w events = epoll_add w.epoll_fd w.fd (bit_or (bit_or events epollet) epolloneshot) p

abbrev pub disarmed : {C : Type 0} → Waiter C → Sys
disarmed w = epoll_del w.epoll_fd w.fd

module _ {C A : Type 0} (call : C → ℕ → ℤ → Prog (Net C A) (Unit {0})) (n : Net C A) (p : ℕ)
    (w : Waiter C) where
  abbrev pub reading : ℕ → ℕ → ℕ → C → Waiter C
  reading buffer length flags cb = record w {
    wait_type = wait_read;
    cb = cb;
    flags = flags;
    buffer = buffer;
    length = length;
  }

  -- A recv that would block, and whose event comes, calls the callback once, with what recv returns
  -- then: as a recv that does not block does, but for the waiter, and for the system calls between.
  pub recv-resumes :
      (buffer length flags errno num_read revents : ℕ) (cb : C) (rest : List Reply)
      → n.waiters p ≡ some w
      → would_block errno ≡ true
      → has_event revents epollerr ≡ false
      → has_event revents epollin ≡ true
      → n.replies ≡ failed errno ∷ done 0 ∷ done 0 ∷ done num_read ∷ rest
      → (async_recv call p buffer length flags cb >> handle_event call p revents) n
        ≡ call cb p (pos num_read) (record n {
          waiters = update n.waiters p (some (reading buffer length flags cb));
          replies = rest;
          calls =
              recv w.fd buffer length flags
              ∷ disarmed w
              ∷ armed p w epollin
              ∷ recv w.fd buffer length flags
              ∷ n.calls;
        })
  unfolding async_recv handle_event
  recv-resumes buffer length flags errno num_read revents cb rest found blocks calm ready r =
      ground arith

  -- When recv fails in the event's handler otherwise than by blocking, and the callback frees the
  -- waiter, arming it again reads freed memory.
  pub handle_read-freed :
      (errno revents : ℕ) (rest : List Reply) (g : Net C A)
      → n.waiters p ≡ some w
      → would_block errno ≡ false
      → has_event revents epollerr ≡ false
      → has_event revents epollin ≡ true
      → n.replies ≡ failed errno ∷ rest
      → call w.cb p
          (neg errno)
          (record n { replies = rest; calls = recv w.fd w.buffer w.length w.flags ∷ n.calls })
        ≡ ok tt g
      → g.waiters p ≡ none
      → handle_read call revents p n ≡ fault
  unfolding handle_read
  handle_read-freed errno revents rest g found hard calm ready r run freed = ground arith
