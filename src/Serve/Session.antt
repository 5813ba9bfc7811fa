-- ===== src/Serve/Session.antt =====
-- A connection of the web server on callbacks, from event to event.
use shproject.Prelude.{
  ℕ, suc, ◌<◌, ◌≡◌, refl, ◌∙◌, ap, Bool, true, false, none, some, List, [], ◌∷◌, arith, length,
}
use shproject.Prelude.Int.{pos}
use shproject.Prelude.Outcome.{Prog, ok, and_then}
use shproject.Heap.{update}
use shproject.Async.{Reply, done, failed}
use shproject.Event.{close, epoll_del, epollin, epollerr, has_event, handle_event}
use shproject.Event.Calls.{handle_events}
use shproject.Web.{memcpy, Parse}
use shproject.Serve.{url_size, on_read, WebRequest, Server, Env, http_parser_execute}
use shproject.Serve.Calls.{call}
use shproject.Serve.Cycle.{on_read-next_request, on_read-request_done}
use shproject.Serve.Visit.{
  Visit, parse_of, reader, IsWaiting, visited, receive, response_calls, visit_calls, visit_answers,
  last_answers, session_answers, session_parses, session_calls, session_events, IsFit, AllFit,
}

module _ (env : Env) (p epoll_fd sock : ℕ) where
  module _ (fuel revents : ℕ) (calm : has_event revents epollerr ≡ false)
      (ready : has_event revents epollin ≡ true) (dated : env.dated ≡ true)
      (valid : (url : ℕ → ℕ) (k : ℕ) → env.http_parser_parse_url url k ≡ pos 0) where
    -- The state when on_read is called.
    abbrev woken : Server → List Reply → Server
    woken n rest = record n {
      replies = rest;
      calls = receive env p epoll_fd sock ∷ epoll_del epoll_fd sock ∷ n.calls;
    }

    event_run :
        (n : Server) (k num_read : ℕ) (rest : List Reply)
        → n.waiters p ≡ some (reader env p epoll_fd sock k)
        → n.replies ≡ done 0 ∷ done num_read ∷ rest
        → handle_event (call env (suc (suc (suc fuel)))) p revents n
          ≡ call env (suc (suc (suc fuel))) on_read p (pos num_read) (woken n rest)
    unfolding handle_event
    event_run n k num_read rest found q = ground arith

    parse_run :
        (n : Server) (r : WebRequest) (v : Visit) (keep_alive : Bool) (parses : List Parse)
        → length v.url < url_size
        → n.app.requests p ≡ some r
        → r.url_length ≡ 0
        → n.app.parses ≡ parse_of v keep_alive ∷ parses
        → (g : Server) × (http_parser_execute p n ≡ ok v.num_read g)
          × (g.app.requests p ≡ some (visited env p epoll_fd sock r v keep_alive))
          × (g.waiters ≡ n.waiters)
          × (g.app.parses ≡ parses)
          × (g.replies ≡ n.replies)
          × (g.calls ≡ n.calls)
    unfolding http_parser_execute
    parse_run n r v keep_alive parses fits found fresh q =
        let a = record r { url = memcpy v.url 0 r.url; url_length = length v.url } in
        let b = record a {
          url = update a.url (length v.url) 0;
          done = true;
          keep_alive = keep_alive;
        } in
        (
          record n {
            app = record n.app {
              requests =
                  update (update (update n.app.requests p (some a)) p (some b)) p
                    (some (visited env p epoll_fd sock r v keep_alive));
              parses = parses;
            };
          },
          ground arith,
          ground arith,
          refl,
          refl,
          refl,
          refl,
        )

    abbrev handle : ℕ → Prog Server (Unit {0})
    handle q = handle_event (call env (suc (suc (suc fuel)))) q revents

    visit_lem :
        (n : Server) (v : Visit) (parses : List Parse) (rest : List Reply)
        → IsWaiting env p epoll_fd sock n
        → IsFit env p epoll_fd sock v
        → n.app.parses ≡ parse_of v true ∷ parses
        → n.replies ≡ visit_answers env p epoll_fd sock v rest
        → (g : Server) × (handle p n ≡ ok tt g)
          × IsWaiting env p epoll_fd sock g
          × (g.app.parses ≡ parses)
          × (g.replies ≡ rest)
          × (g.calls ≡ visit_calls env p epoll_fd sock v n.calls)
    visit_lem n v parses rest w fit_v q a =
        let (k, found) = w.waiter in
        let (r, found', fresh, undone, same) = w.request in
        let n' = woken n (done v.headers ∷ done v.body ∷ failed v.errno ∷ done 0 ∷ rest) in
        let (g, parsed, request, waiters, parses', replies, calls) =
          parse_run n' r v true parses fit_v.0 found' fresh q in
        let (h, run, waiter, request', later, left, calls') =
          on_read-next_request env n' g p v.num_read (visited env p epoll_fd sock r v true)
            (reader env p epoll_fd sock k) parsed request (ap (λ f. f p) waiters ∙ found) refl
            (valid _ _) dated fuel v.headers v.body v.errno rest refl fit_v.1 replies in
        (
          h,
          event_run n k v.num_read (done v.headers ∷ done v.body ∷ failed v.errno ∷ done 0 ∷ rest)
                found a
              ∙ run,
          record { waiter = (k, waiter); request = (_, request', refl, refl, same) },
          later ∙ parses',
          left,
          ground (arith, calls', calls),
        )

    last_lem :
        (n : Server) (v : Visit)
        → IsWaiting env p epoll_fd sock n
        → length v.url < url_size
        → n.app.parses ≡ parse_of v false ∷ []
        → n.replies ≡ last_answers env p epoll_fd sock v
        → (g : Server) × (handle p n ≡ ok tt g)
          × (g.waiters p ≡ none)
          × (g.app.requests p ≡ none)
          × (g.replies ≡ [])
          × (g.calls ≡ close sock ∷ response_calls env p epoll_fd sock v false n.calls)
    last_lem n v w fits q a =
        let (k, found) = w.waiter in
        let (r, found', fresh, undone, same) = w.request in
        let n' = woken n (done v.headers ∷ done v.body ∷ done 0 ∷ []) in
        let (g, parsed, request, waiters, parses', replies, calls) =
          parse_run n' r v false [] fits found' fresh q in
        let (h, run, waiter, request', left, calls') =
          on_read-request_done env n' g p v.num_read (visited env p epoll_fd sock r v false)
            (reader env p epoll_fd sock k) parsed request (ap (λ f. f p) waiters ∙ found) refl
            (valid _ _) dated fuel v.headers v.body [] refl replies in
        (
          h,
          event_run n k v.num_read (done v.headers ∷ done v.body ∷ done 0 ∷ []) found a ∙ run,
          waiter,
          request',
          left,
          ground (arith, calls', calls, same),
        )

    -- With the date and the parses granted, URLs that fit, sends that succeed and a recv after each but
    -- the last request that would block: every request of a connection is answered at its event, in order, and after the last one, which
    -- does not keep the connection alive, the socket is closed, once, and the request is freed.
    pub handle_events-session :
        (vs : List Visit) (last : Visit) (n : Server)
        → IsWaiting env p epoll_fd sock n
        → AllFit env p epoll_fd sock vs
        → length last.url < url_size
        → n.app.parses ≡ session_parses env p epoll_fd sock vs last
        → n.replies ≡ session_answers env p epoll_fd sock vs last
        → (g : Server) × (handle_events
              (call env (suc (suc (suc fuel))))
              (session_events env p epoll_fd sock revents vs)
              n
            ≡ ok tt g)
          × (g.waiters p ≡ none)
          × (g.app.requests p ≡ none)
          × (g.replies ≡ [])
          × (g.calls ≡ session_calls env p epoll_fd sock vs last n.calls)
    unfolding handle_events
    handle_events-session [] last n w fit_all fits q a =
        let (g, run, waiter, request, left, calls) = last_lem n last w fits q a in
        (
          g,
          ap (λ o. and_then o (λ _. handle_events (call env (suc (suc (suc fuel)))) [])) run,
          waiter,
          request,
          left,
          calls,
        )
    handle_events-session (v ∷ vs) last n w (fit_v, fit_all) fits q a =
        let (b, run, waits, parses, replies, calls) =
          visit_lem n v (session_parses env p epoll_fd sock vs last)
            (session_answers env p epoll_fd sock vs last) w fit_v q a in
        let (g, run', waiter, request, left, calls') =
          handle_events-session vs last b waits fit_all fits parses replies in
        (
          g,
          ap
                (λ o. and_then o (λ _.
                  handle_events (call env (suc (suc (suc fuel))))
                    (session_events env p epoll_fd sock revents vs)))
                run
              ∙ run',
          waiter,
          request,
          left,
          calls' ∙ ap (session_calls env p epoll_fd sock vs last) calls,
        )
