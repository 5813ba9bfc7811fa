-- ===== src/Serve/Depth.antt =====
-- Requests that are there before the server asks for them.
use shproject.Prelude.{
  ℕ, suc, ◌+◌, ◌*◌, ◌∙◌, ◌≡◌, refl, inl, inr, Bool-cases, true, false, some, List, ◌∷◌, arith,
}
use shproject.Prelude.Int.{pos}
use shproject.Prelude.Outcome.{ok}
use shproject.Heap.{update}
use shproject.Async.{Reply, done}
use shproject.Event.{Waiter, recv}
use shproject.Serve.{
  Callback, on_read, next_request, buffer_size, WebRequest, Server, Env, http_parser_execute,
}
use shproject.Serve.Calls.{call}
use shproject.Serve.Cycle.{answered, send_headers, send_body}

module _ (env : Env) (n g : Server) (p num_read : ℕ) (r : WebRequest) (w : Waiter Callback) where
  -- The state when recv has given the bytes of the next request.
  abbrev pub again : List Reply → Server
  again rest =
      let a = answered env n g p num_read r w next_request in
      record g {
        app = record g.app {
          requests =
              update (update g.app.requests p (some a)) p
                (some (record a { url_length = 0; done = false }));
        };
        replies = rest;
        calls =
            recv w.fd (env.read_buffer p) buffer_size 0
            ∷ send_body env n g p num_read r w
            ∷ send_headers env n g p num_read r w
            ∷ g.calls;
      }

  -- The answer to a request calls on_read for the next one before it returns.
  pub on_read-nested :
      (fuel headers body more : ℕ) (rest : List Reply)
      → http_parser_execute p n ≡ ok num_read g
      → g.app.requests p ≡ some r
      → g.waiters p ≡ some w
      → r.done ≡ true
      → r.keep_alive ≡ true
      → env.http_parser_parse_url r.url r.url_length ≡ pos 0
      → env.dated ≡ true
      → g.replies ≡ done headers ∷ done body ∷ done more ∷ rest
      → call env (suc (suc (suc fuel))) on_read p (pos num_read) n
        ≡ call env fuel on_read p (pos more) (again rest)
  unfolding call
  on_read-nested fuel headers body more rest parsed found waiter complete alive url dated q =
      elim (Bool-cases r.is_get) [ inl is ↦ ground arith | inr is ↦ ground arith ]

-- `k` requests that are kept alive and whose bytes recv gives at once, from `n` with the first
-- `num_read` bytes to `m` with the `last` ones.
pub data Burst (env : Env) (p : ℕ) (m : Server) (last : ℕ) : ℕ → Server → ℕ → Type 0 where
  none_left : Burst env p m last 0 m last
  request :
      {k : ℕ} {n : Server} {num_read : ℕ} (g : Server) (r : WebRequest) (w : Waiter Callback)
      (headers body more : ℕ) (rest : List Reply)
      → http_parser_execute p n ≡ ok num_read g
      → g.app.requests p ≡ some r
      → g.waiters p ≡ some w
      → r.done ≡ true
      → r.keep_alive ≡ true
      → env.http_parser_parse_url r.url r.url_length ≡ pos 0
      → g.replies ≡ done headers ∷ done body ∷ done more ∷ rest
      → Burst env p m last k (again env n g p num_read r w rest) more
      → Burst env p m last (suc k) n num_read

-- With the date granted, before the answer to the first of `k` such requests returns, three more callbacks have been called
-- for each of them, and on_read for the bytes behind them: how deep they nest has no bound.
pub on_read-Burst :
    (env : Env) (p : ℕ) (m : Server) (last k : ℕ) (n : Server) (num_read fuel : ℕ)
    → env.dated ≡ true
    → Burst env p m last k n num_read
    → call env (3 * k + fuel) on_read p (pos num_read) n ≡ call env fuel on_read p (pos last) m
on_read-Burst env p m last _ _ _ fuel dated none_left =
    let count : 3 * 0 + fuel ≡ fuel = omega arith in rw count refl
on_read-Burst env p m last _ n num_read fuel dated
      (request {k} g r w headers body more rest parsed found waiter complete alive url q b) =
    let count : 3 * suc k + fuel ≡ suc (suc (suc (3 * k + fuel))) = omega arith in
    rw count (
      on_read-nested env n g p num_read r w (3 * k + fuel) headers body more rest parsed found
        waiter complete alive url dated q
      ∙ on_read-Burst env p m last k (again env n g p num_read r w rest) more fuel dated b)
