-- ===== src/Web/Threads.antt =====
-- The variant of bench/webserver/main.c on threads, WEBSERVER_THREADS: a thread for each connection.
-- The state is the threads that were started, latest last, each with its function and its argument.
use mathlib.Core.List.{append-nil, append_assoc}
use shproject.Prelude.{
  ℕ, ◌≡◌, sym, ap, ◌∙◌, Bool, true, false, Option, none, some, List, [], ◌∷◌, ◌++◌, if◌then◌else◌,
}
use shproject.Prelude.Outcome.{Prog, ok, abort, out_of_fuel, pure, ◌>>=◌, ◌>>◌, assert}

abbrev pub Started : Type 0
Started = List (ℕ × ℕ)

-- Whether pthread_attr_init, pthread_attr_setdetachstate, pthread_attr_setstacksize and
-- pthread_create succeed.
pub record Thread : Type 0 where
  pub init : Bool
  pub detach : Bool
  pub size : Bool
  pub create : Bool

unfoldable pub create_thread : Thread → ℕ → ℕ → Prog Started (Unit {0})
create_thread t func arg = do
  assert t.init
  assert t.detach
  assert t.size
  λ threads. if t.create then ok tt (threads ++ (func, arg) ∷ []) else abort

-- socket, and whether setsockopt, bind and listen succeed.
unfoldable open_socket : Option ℕ → Bool → Bool → Bool → Prog Started ℕ
open_socket none reuses binds listens = λ s. abort
open_socket (some sock) reuses binds listens = do
  assert reuses
  assert binds
  assert listens
  pure sock

-- accept, `none` for -1, and the thread for the connection.
unfoldable serve : ℕ → Option ℕ → Thread → Prog Started (Unit {0})
unfolding create_thread
serve handler none t = λ s. abort
serve handler (some new_sock) t = create_thread t handler new_sock

unfoldable pub accept_loop : ℕ → List (Option ℕ × Thread) → Prog Started (Unit {0})
unfolding serve
accept_loop handler [] = λ s. out_of_fuel
accept_loop handler ((sock, t) ∷ connections) = do
  serve handler sock t
  accept_loop handler connections

unfoldable main :
    ℕ → Option ℕ → Bool → Bool → Bool → List (Option ℕ × Thread) → Prog Started (Unit {0})
unfolding open_socket accept_loop
main handler socket reuses binds listens connections = do
  sock ← open_socket socket reuses binds listens
  accept_loop handler connections

-- Every call for the connections succeeds, with these sockets.
abbrev granted : Thread
granted = record { init = true; detach = true; size = true; create = true }

abbrev all_granted : List ℕ → List (Option ℕ × Thread)
all_granted [] = []
all_granted (sock ∷ socks) = (some sock, granted) ∷ all_granted socks

abbrev each : ℕ → List ℕ → Started
each handler [] = []
each handler (sock ∷ socks) = (handler, sock) ∷ each handler socks

loop_starts :
    (handler : ℕ) (socks : List ℕ) (rest : List (Option ℕ × Thread)) (threads : Started)
    → accept_loop handler (all_granted socks ++ rest) threads
      ≡ accept_loop handler rest (threads ++ each handler socks)
unfolding accept_loop
loop_starts handler [] rest threads = ap (accept_loop handler rest) (sym (append-nil threads))
loop_starts handler (sock ∷ socks) rest threads =
    loop_starts handler socks rest (threads ++ (handler, sock) ∷ [])
    ∙ ap (accept_loop handler rest)
        (append_assoc threads ((handler, sock) ∷ []) (each handler socks))

-- The server starts one thread for each connection, in their order, and ends at the first one that accept
-- does not give, or whose thread cannot be created: it serves no connection after that.
main-ends :
    (handler sock : ℕ) (socks : List ℕ) (t : Thread) (rest : List (Option ℕ × Thread))
    → (main handler (some sock) true true true (all_granted socks ++ (none, t) ∷ rest) [] ≡ abort)
      × (main handler
            (some sock)
            true
            true
            true
            (all_granted socks ++ (some sock, record granted { create = false }) ∷ rest)
            []
          ≡ abort)
unfolding main
main-ends handler sock socks t rest = (
  loop_starts handler socks ((none, t) ∷ rest) [],
  loop_starts handler socks ((some sock, record granted { create = false }) ∷ rest) [],
)
