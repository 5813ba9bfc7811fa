-- ===== src/Web/Main.antt =====
-- main of bench/webserver/main.c: a coroutine for each connection.
-- What the kernel answers is an argument. A connection is what async_accept returns, `none` for -1, with
-- the addresses that malloc gives to sched_new_coroutine.
use shproject.Prelude.{
  ℕ, ◌≡◌, refl, sym, ◌∙◌, ap, Bool, true, false, not, Option, none, some, List, [], ◌∷◌, ◌++◌,
  arith, leb, ◌==◌, ◌∉◌,
}
use mathlib.Core.List.{append-nil, append_assoc}
use shproject.Prelude.Outcome.{
  Prog, abort, out_of_fuel, pure, and_then, ◌>>=◌, ◌>>◌, assert, Returns, returns, Returns-bind,
  Returns-inv,
}
use shproject.Sched.State.{World, Coroutine, runnable, at_start}
use shproject.Sched.Init.{new_coroutine, sched_new_coroutine}
use shproject.Sched.Invariant.{IsSound, queue, current}
use shproject.Sched.Boot.{sched_new_coroutine-queued}

-- socket, and whether setsockopt, bind and listen succeed.
unfoldable pub open_socket : Option ℕ → Bool → Bool → Bool → Prog World ℕ
open_socket none reuses binds listens = λ w. abort
open_socket (some sock) reuses binds listens = do
  assert reuses
  assert binds
  assert listens
  pure sock

pub record Connection : Type 0 where
  pub new_sock : Option ℕ
  pub fresh : ℕ
  pub fresh_local : ℕ

-- `handler` is server_handler_coro.
unfoldable pub serve : ℕ → Connection → Prog World (Unit {0})
unfolding sched_new_coroutine
serve handler c = elim c.new_sock [
  | none ↦ λ w. abort
  | some new_sock ↦ do
    coro ← sched_new_coroutine c.fresh c.fresh_local handler new_sock
    assert (not (coro == 0))
]

unfoldable pub accept_loop : ℕ → List Connection → Prog World (Unit {0})
unfolding serve
accept_loop handler [] = λ w. out_of_fuel
accept_loop handler (c ∷ connections) = do serve handler c; accept_loop handler connections

unfoldable pub main : ℕ → Option ℕ → Bool → Bool → Bool → List Connection → Prog World (Unit {0})
unfolding open_socket accept_loop
main handler socket reuses binds listens connections = do
  sock ← open_socket socket reuses binds listens
  accept_loop handler connections

abbrev pub freshes : List Connection → List ℕ
freshes [] = []
freshes (c ∷ connections) = c.fresh ∷ freshes connections

-- async_accept gives a socket for each connection, and malloc an address that is not in use.
abbrev pub AreNew : List Connection → World → Type 0
AreNew [] w = Unit {0}
AreNew (c ∷ connections) w =
    ((sock : ℕ) × (c.new_sock ≡ some sock))
    × (w.coros c.fresh ≡ none)
    × ((c.fresh == 0) ≡ false)
    × (c.fresh ∉ freshes connections)
    × AreNew connections w

still-AreNew :
    (connections : List Connection) (w g : World) (a : ℕ)
    → a ∉ freshes connections
    → ((t : ℕ) → (t == a) ≡ false → g.coros t ≡ w.coros t)
    → AreNew connections w
    → AreNew connections g
still-AreNew [] w g a out same new = tt
still-AreNew (c ∷ connections) w g a out same (sock, unused, nonnull, apart, new) = (
  sock,
  same c.fresh (ground arith) ∙ unused,
  nonnull,
  apart,
  still-AreNew connections w g a (ground arith) same new,
)

-- A connection's coroutine: it runs `handler` with the connection's socket from the start.
abbrev pub Serves : ℕ → World → Connection → Type 0
Serves handler g c =
    (sock : ℕ) × (x : Coroutine) × (c.new_sock ≡ some sock)
    × (g.coros c.fresh ≡ some x)
    × (x.start ≡ handler)
    × (x.arg ≡ sock)
    × (x.context ≡ at_start)
    × (x.state ≡ runnable)

abbrev pub AreServed : ℕ → World → List Connection → Type 0
AreServed handler g [] = Unit {0}
AreServed handler g (c ∷ connections) = Serves handler g c × AreServed handler g connections

serve_lem :
    (handler : ℕ) (c : Connection) (connections : List Connection) (w : World)
    → IsSound w
    → leb w.local_size w.local_count ≡ true
    → AreNew (c ∷ connections) w
    → Returns
        (λ _ g.
          IsSound g
          × (queue g ≡ queue w ++ c.fresh ∷ [])
          × (current g ≡ current w)
          × (leb g.local_size g.local_count ≡ true)
          × AreNew connections g
          × Serves handler g c
          × ((t : ℕ) → (t == c.fresh) ≡ false → g.coros t ≡ w.coros t))
        (serve handler c w)
unfolding serve
serve_lem handler c connections w s full (sock, unused, nonnull, apart, new) = rw sock.1 (
    Returns-bind
      (sched_new_coroutine-queued w c.fresh c.fresh_local handler sock.0 s full unused nonnull)
      (λ r g q.
        let there : (r == 0) ≡ false = ground (arith, q.0, nonnull) in
        let others : (t : ℕ) → (t == c.fresh) ≡ false → g.coros t ≡ w.coros t =
          λ t o. q.1.others t o ∙ ground arith in
        let (y, x, ey, ex, up, _) = q.1.awake in
        let (start, arg, context) = q.1.entry (new_coroutine handler sock.0) x (ground arith) ex in
        rw there (
          returns (
            q.1.sound,
            q.1.order,
            q.1.same,
            ground (arith, q.1.slots, full),
            still-AreNew connections w g c.fresh apart others new,
            (sock.0, x, refl, ex, start, arg, context, up),
            others,
          ))))

-- From a sound state, once every processor has its thread, and with addresses that are not in use,
-- each connection that waits gets a coroutine, which is queued behind the others in the order of the
-- connections and is to call `handler` with that connection's socket; the other coroutines are as
-- they were, and main runs on.
pub accept_loop-queues :
    (handler : ℕ) (connections rest : List Connection) (w : World)
    → IsSound w
    → leb w.local_size w.local_count ≡ true
    → AreNew connections w
    → (g : World) × (accept_loop handler (connections ++ rest) w ≡ accept_loop handler rest g)
      × IsSound g
      × (queue g ≡ queue w ++ freshes connections)
      × (current g ≡ current w)
      × AreServed handler g connections
      × ((t : ℕ) → t ∉ freshes connections → g.coros t ≡ w.coros t)
unfolding accept_loop
accept_loop-queues handler [] rest w s full new =
    (w, refl, s, sym (append-nil (queue w)), refl, tt, λ t out. refl)
accept_loop-queues handler (c ∷ connections) rest w s full new =
    let (_, b, run, (sound, order, same, full', new', served, others)) =
      Returns-inv (serve_lem handler c connections w s full new) in
    let (g, run', sound', order', same', served', others') =
      accept_loop-queues handler connections rest b sound full' new' in
    let (sock, x, esock, ex, is, arg, context, up) = served in
    (
      g,
      ap (λ o. and_then o (λ _. accept_loop handler (connections ++ rest))) run ∙ run',
      sound',
      order'
          ∙ ap (λ l. l ++ freshes connections) order
          ∙ append_assoc (queue w) (c.fresh ∷ []) (freshes connections),
      same' ∙ same,
      ((sock, x, esock, others' c.fresh new.3 ∙ ex, is, arg, context, up), served'),
      λ t out. others' t (ground arith) ∙ others t (ground arith),
    )
