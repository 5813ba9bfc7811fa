-- ===== src/Web/Session.antt =====
-- A connection from its first request to its end.
use shproject.Prelude.{
  ℕ, ◌+◌, ◌<◌, ◌≡◌, refl, sym, subst, ap, ◌∙◌, true, false, List, [], ◌∷◌, arith,
}
use shproject.Prelude.Int.{pos}
use shproject.Prelude.Outcome.{ok, Returns, returns, Returns-inv, Returns-bind}
use shproject.Web.{url_size, finished}
use shproject.Web.Send.{IsWhole}
use shproject.Web.Handler.{
  Io, freed, closed, Conn, received, Round, Env, read_and_parse, respond, handler_loop,
  reset_request, server_handler_coro,
}
use shproject.Web.Arrival.{Visit, round_of, url_length_of, IsRead, read_and_parse_lem}
use shproject.Web.Response.{
  body_size, header_size_of, response_log, answer, respond_run, respond_lem,
}

-- How it ends: the client closes it, so that recv gives 0 bytes and no callback is called, or a last
-- request does not keep it alive.
pub data End : Type 0 where
  hang_up : End
  last : Visit → End

module _ (env : Env) where
  -- A visit that is served: its URL leaves a byte of the array free, and its response is sent.
  pub record IsServed (v : Visit) : Type 0 where
    pub read : IsRead v.parts
    pub num_read : 0 < v.num_read
    pub url : url_length_of v.parts < url_size
    pub headers_sent : IsWhole v.header_sends (header_size_of env v.is_get v.keep_alive)
    pub body_sent : IsWhole v.body_sends (body_size env v.is_get)

  -- Visits that keep the connection alive.
  abbrev pub IsKept : List Visit → Type 0
  IsKept [] = Unit {0}
  IsKept (v ∷ vs) = IsServed v × (v.keep_alive ≡ true) × IsKept vs

  abbrev pub session_log : List Visit → List Io → List Io
  session_log [] log = log
  session_log (v ∷ vs) log = session_log vs (response_log env v.is_get v.keep_alive log)

  abbrev pub rounds_of : List Visit → List Round → List Round
  rounds_of [] rounds = rounds
  rounds_of (v ∷ vs) rounds = round_of v ∷ rounds_of vs rounds

  abbrev pub end_rounds : End → List Round
  end_rounds hang_up =
      record { recvs = received 0 (finished 0 false) ∷ []; header_sends = []; body_sends = [] } ∷ []
  end_rounds (last v) = round_of v ∷ []

  abbrev pub end_log : End → List Io → List Io
  end_log hang_up log = log
  end_log (last v) log = response_log env v.is_get v.keep_alive log

  abbrev pub IsEnd : End → Type 0
  IsEnd hang_up = Unit {0}
  IsEnd (last v) = IsServed v × (v.keep_alive ≡ false)

  module _ (dated : env.dated ≡ true)
      (valid : (url : ℕ → ℕ) (n : ℕ) → env.http_parser_parse_url url n ≡ pos 0) where
    round_run :
        (t : Round) (rounds : List Round) (c b g : Conn) (r : ℕ)
        → c.request.keep_alive ≡ true
        → read_and_parse t.recvs (record c { request = reset_request c.request }) ≡ ok (pos r) b
        → b.request.done ≡ true
        → respond env t b ≡ ok tt g
        → handler_loop env (t ∷ rounds) c ≡ handler_loop env rounds g
    unfolding handler_loop
    round_run t rounds c b g r alive run d run' = ground arith

    visit_lem :
        (v : Visit) (rounds : List Round) (c : Conn)
        → IsServed v
        → c.request.keep_alive ≡ true
        → (g : Conn) × (handler_loop env (round_of v ∷ rounds) c ≡ handler_loop env rounds g)
          × (g.request.keep_alive ≡ v.keep_alive)
          × (g.log ≡ response_log env v.is_get v.keep_alive c.log)
    visit_lem v rounds c s alive =
        let start = record c { request = reset_request c.request } in
        let fits : start.request.url_length + url_length_of v.parts < url_size =
          omega (arith, s.url) in
        let (r, b, run, q) =
          Returns-inv
            (read_and_parse_lem v.parts v.num_read v.is_get v.keep_alive start s.read fits refl) in
        let (e, run') =
          respond_lem env dated valid v.is_get v.keep_alive (round_of v) b s.headers_sent
            s.body_sent in
        let g = record b { errno = e; log = response_log env v.is_get v.keep_alive b.log } in
        let parsed : read_and_parse (round_of v).recvs start ≡ ok (pos v.num_read) b =
          run ∙ ap (λ z. ok z b) q.result in
        let answered : respond env (round_of v) b ≡ ok tt g =
          respond_run env dated valid v.is_get (round_of v) b q.done q.is_get_of
          ∙ ap (λ k. answer env v.is_get k (round_of v) b) q.keep_alive_of
          ∙ run' in
        (
          g,
          round_run (round_of v) rounds c b g v.num_read alive parsed q.done answered,
          q.keep_alive_of,
          ap (response_log env v.is_get v.keep_alive) q.log,
        )

    visits_lem :
        (vs : List Visit) (rounds : List Round) (c : Conn)
        → IsKept vs
        → c.request.keep_alive ≡ true
        → (g : Conn) × (handler_loop env (rounds_of vs rounds) c ≡ handler_loop env rounds g)
          × (g.request.keep_alive ≡ true)
          × (g.log ≡ session_log vs c.log)
    visits_lem [] rounds c kept_all alive = (c, refl, alive, refl)
    visits_lem (v ∷ vs) rounds c (s, k, rest) alive =
        let (b, run, alive', log) = visit_lem v (rounds_of vs rounds) c s alive in
        let (g, run', alive'', log') = visits_lem vs rounds b rest (alive' ∙ k) in
        (g, run ∙ run', alive'', log' ∙ ap (session_log vs) log)

    end_lem :
        (end : End) (c : Conn)
        → IsEnd end
        → c.request.keep_alive ≡ true
        → Returns (λ _ g. g.log ≡ end_log end c.log) (handler_loop env (end_rounds end) c)
    unfolding handler_loop
    end_lem hang_up c ends alive =
        let gone : handler_loop env (end_rounds hang_up) c
            ≡ ok tt (record c { request = reset_request c.request; is_get = false }) =
          ground arith in
        subst (Returns _) (sym gone) (returns refl)
    end_lem (last v) c (s, k) alive =
        let (g, run, closes, log) = visit_lem v [] c s alive in
        let stops : handler_loop env [] g ≡ ok tt g = ground arith in
        subst (Returns _) (sym (run ∙ stops)) (returns log)

    -- With the date and the parses granted, requests that fit and responses that are sent whole, every
    -- request of a connection is answered, in order, until the client closes or a last request does not
    -- keep it alive; then the request is freed and the socket closed, once.
    pub server_handler_coro-session :
        (vs : List Visit) (end : End) (c : Conn)
        → IsKept vs
        → IsEnd end
        → Returns
            (λ _ g. g.log ≡ closed ∷ freed ∷ end_log end (session_log vs c.log))
            (server_handler_coro env true (rounds_of vs (end_rounds end)) c)
    unfolding server_handler_coro
    server_handler_coro-session vs end c kept_all ends =
        let start = record c { request = record c.request { keep_alive = true } } in
        let (b, run, alive, log) = visits_lem vs (end_rounds end) start kept_all refl in
        rw run (
          Returns-bind (end_lem end b ends alive)
            (λ _ g e. returns (ap (λ l. closed ∷ freed ∷ l) (e ∙ ap (end_log end) log))))
