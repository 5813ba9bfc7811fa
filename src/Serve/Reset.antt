-- ===== src/Serve/Reset.antt =====
-- A connection that the client resets while its request waits for bytes.
use shproject.Prelude.{ℕ, suc, ◌≡◌, refl, true, false, ◌||◌, none, some, List, ◌∷◌, arith, ◌==◌}
use shproject.Prelude.Int.{ℤ}
use shproject.Heap.{update}
use shproject.Prelude.Outcome.{Prog, ok, fault, abort, ◌>>◌}
use shproject.Async.{Reply, done, failed}
use shproject.Event.{
  wait_read, Waiter, has_event, epollin, epollerr, neg, recv, epoll_del, close, arm_waiter,
  handle_event,
}
use shproject.Web.{epipe, econnreset}
use shproject.Serve.{Callback, on_read, WebRequest, Server, Env}
use shproject.Serve.Calls.{call, open_request}

-- When recv failed, with what is left of the replies.
abbrev pub read_failed : Server → Waiter Callback → List Reply → Server
read_failed n w rest = record n {
  replies = done 0 ∷ rest;
  calls = recv w.fd w.buffer w.length w.flags ∷ epoll_del w.epoll_fd w.fd ∷ n.calls;
}

module _ (env : Env) (n : Server) (p : ℕ) (errno : ℕ)
    (reset : ((errno == epipe) || (errno == econnreset)) ≡ true) where
  -- At an event without an error for a waiting read, recv fails with EPIPE or ECONNRESET, the waiter
  -- having been taken off the poller, and a close will succeed: handle_event calls the callback,
  -- whatever it does, and arms the waiter then. on_read closes the socket, once, and frees the request,
  -- its waiter in it, and the waiter is armed when it is no longer there.
  pub handle_event-reset :
      (w : Waiter Callback) (r : WebRequest) (fuel revents : ℕ) (rest : List Reply)
      (run : Callback → ℕ → ℤ → Prog Server (Unit {0}))
      → n.waiters p ≡ some w
      → w.wait_type ≡ wait_read
      → w.cb ≡ on_read
      → n.app.requests p ≡ some r
      → has_event revents epollerr ≡ false
      → has_event revents epollin ≡ true
      → n.replies ≡ done 0 ∷ failed errno ∷ done 0 ∷ rest
      → (handle_event run p revents n
          ≡ (run on_read p (neg errno) >> arm_waiter p epollin) (read_failed n w rest))
        × (g : Server) × (call env (suc fuel) on_read p (neg errno) (read_failed n w rest)
            ≡ ok tt g)
        × (g.calls ≡ close r.sock ∷ (read_failed n w rest).calls)
        × (g.replies ≡ rest)
        × (g.waiters p ≡ none)
        × (g.app.requests p ≡ none)
        × (arm_waiter p epollin g ≡ fault)
        × (handle_event (call env (suc fuel)) p revents n ≡ fault)
  unfolding handle_event call
  handle_event-reset w r fuel revents rest run found type cb request calm ready q = (
    ground arith,
    record n {
      waiters = update n.waiters p none;
      app = record n.app { requests = update n.app.requests p none };
      replies = rest;
      calls = close r.sock ∷ (read_failed n w rest).calls;
    },
    ground arith,
    refl,
    refl,
    ground arith,
    ground arith,
    ground arith,
    ground arith,
  )

  -- The first recv of a connection ends the process.
  pub open_request-reset :
      (fuel epoll_fd sock : ℕ) (rest : List Reply)
      → n.replies ≡ failed errno ∷ rest
      → open_request env (call env fuel) p epoll_fd sock n ≡ abort
  unfolding open_request call
  open_request-reset fuel epoll_fd sock rest q = ground arith
