-- ===== src/Serve/Start.antt =====
-- The start of the web server on callbacks.
use shproject.Prelude.{
  ℕ, zero, suc, ◌-◌, ◌≡◌, refl, Bool, true, false, ◌==◌, ◌++◌, replicate, if◌then◌else◌, some, List,
  ◌∷◌, arith,
}
use shproject.Prelude.Int.{ℤ, pos, negsuc, is_negative}
use shproject.Prelude.Outcome.{Prog, ok, abort, pure, ◌>>=◌, ◌>>◌, assert}
use shproject.Heap.{update}
use shproject.Async.{Reply, done, failed, would_block}
use shproject.Event.{
  wait_accept, Waiter, Sys, socket, setsockopt, bind, listen, sched_getaffinity, pthread_create,
  accept4, epoll_create1, is_zero, epollin, system, async_init_waiter,
}
use shproject.Event.Calls.{Poll, async_accept, async_init_loop}
use shproject.Event.Resume.{armed}
use shproject.Serve.{Callback, on_accept, Server, Env, exit_error}
use shproject.Serve.Calls.{call, main_loop}

-- The result of a system call that is not -1.
abbrev or_exit : Reply → Prog Server ℕ
or_exit (done result) = pure result
or_exit (failed errno) = exit_error

abbrev is_minus_one : ℤ → Bool
is_minus_one (pos n) = false
is_minus_one (negsuc n) = n == 0

unfoldable pub start_threads : ℕ → Prog Server (Unit {0})
unfolding system
start_threads zero = pure tt
start_threads (suc count) = do
  reply ← system pthread_create
  assert (is_zero reply)
  start_threads count

abbrev count_of : Reply → Prog Server ℕ
count_of (done cpu_count) = pure cpu_count
count_of (failed errno) = λ n. abort

unfoldable pub open_socket : Prog Server ℕ
unfolding system
open_socket = do
  reply ← system socket
  sock ← or_exit reply
  reply ← system (setsockopt sock)
  _ ← or_exit reply
  reply ← system (bind sock)
  _ ← or_exit reply
  reply ← system (listen sock)
  _ ← or_exit reply
  pure sock

-- `p` is where the waiter is on the stack, `waiter` what is there. sched_getaffinity answers the
-- number of processors.
unfoldable pub start : Env → ℕ → ℕ → Waiter Callback → Prog Server (Unit {0})
unfolding open_socket async_init_loop system start_threads async_init_waiter async_accept call
start env fuel p waiter = do
  sock ← open_socket
  loop ← async_init_loop
  if is_minus_one loop.0 then exit_error else (do
    reply ← system sched_getaffinity
    cpu_count ← count_of reply
    start_threads (cpu_count - 1)
    async_init_waiter p waiter loop.1 sock
    error ← async_accept (call env fuel) p on_accept
    if is_negative error then exit_error else pure tt)

unfoldable pub main : Env → ℕ → ℕ → Waiter Callback → List Poll → Prog Server (Unit {0})
unfolding start main_loop
main env fuel p waiter answers = start env fuel p waiter >> main_loop env fuel answers

abbrev threads_made : ℕ → List Sys → List Sys
threads_made zero calls = calls
threads_made (suc count) calls = threads_made count (pthread_create ∷ calls)

start_threads_lem :
    (count : ℕ) (n : Server) (rest : List Reply)
    → n.replies ≡ replicate count (done 0) ++ rest
    → start_threads count n
      ≡ ok tt (record n { replies = rest; calls = threads_made count n.calls })
unfolding start_threads
start_threads_lem zero n rest q = ground arith
start_threads_lem (suc count) n rest q =
    let later =
      start_threads_lem count
        (record n { replies = replicate count (done 0) ++ rest; calls = pthread_create ∷ n.calls })
        rest refl in
    ground arith

abbrev pub listening : Waiter Callback → ℕ → ℕ → Waiter Callback
listening waiter epoll_fd sock = record waiter {
  epoll_fd = epoll_fd;
  fd = sock;
  wait_type = wait_accept;
  cb = on_accept;
}

-- The calls of the start, latest first.
abbrev pub start_calls : ℕ → ℕ → Waiter Callback → ℕ → ℕ → List Sys → List Sys
start_calls p k waiter epoll_fd sock calls =
    armed p (listening waiter epoll_fd sock) epollin
    ∷ accept4 sock
    ∷ threads_made k (
        sched_getaffinity
        ∷ epoll_create1
        ∷ listen sock
        ∷ bind sock
        ∷ setsockopt sock
        ∷ socket
        ∷ calls)

-- Where every call is granted and no connection waits, the start makes a thread for each processor but
-- its own, and arms one waiter, for connections on the socket.
pub start_lem :
    (env : Env) (fuel p k sock epoll_fd errno : ℕ) (waiter : Waiter Callback) (n : Server)
    (rest : List Reply)
    → would_block errno ≡ true
    → n.replies
      ≡ done sock ∷ done 0 ∷ done 0 ∷ done 0 ∷ done epoll_fd ∷ done (suc k) ∷ replicate k (done 0)
        ++ failed errno ∷ done 0 ∷ rest
    → (g : Server) × (start env fuel p waiter n ≡ ok tt g)
      × (g.waiters p ≡ some (listening waiter epoll_fd sock))
      × (g.replies ≡ rest)
      × (g.calls ≡ start_calls p k waiter epoll_fd sock n.calls)
unfolding start
start_lem env fuel p k sock epoll_fd errno waiter n rest blocks q =
    let calls =
      sched_getaffinity
      ∷ epoll_create1
      ∷ listen sock
      ∷ bind sock
      ∷ setsockopt sock
      ∷ socket
      ∷ n.calls in
    let threads =
      start_threads_lem k
        (record n { replies = replicate k (done 0) ++ failed errno ∷ done 0 ∷ rest; calls = calls })
        (failed errno ∷ done 0 ∷ rest) refl in
    let less : suc k - 1 ≡ k = omega arith in
    let made : Waiter Callback = record waiter { epoll_fd = epoll_fd; fd = sock } in
    (
      record n {
        waiters = update (update n.waiters p (some made)) p (some (listening waiter epoll_fd sock));
        replies = rest;
        calls = start_calls p k waiter epoll_fd sock n.calls;
      },
      ground arith,
      ground arith,
      refl,
      refl,
    )
