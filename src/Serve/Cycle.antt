-- ===== src/Serve/Cycle.antt =====
-- A request from the bytes that complete it to the next one, or to the end of its connection.
use shproject.Prelude.{
  ℕ, suc, ◌≡◌, refl, inl, inr, Bool-cases, true, false, none, some, List, ◌∷◌, arith, leb,
  if◌then◌else◌,
}
use shproject.Prelude.Int.{pos}
use shproject.Prelude.Outcome.{ok}
use shproject.Heap.{update}
use shproject.Async.{Reply, done, failed, would_block}
use shproject.Event.{wait_read, Waiter, Sys, recv, send, close, epollin}
use shproject.Event.Resume.{armed}
use shproject.Web.{Text, seek, method_not_allowed, text_html, text_plain, html, empty, sizeof_html}
use shproject.Serve.{
  msg_nosignal, Callback, on_read, next_request, request_done, buffer_size, WebRequest, Server, Env,
  http_parser_execute,
}
use shproject.Serve.Calls.{call}

-- The answer to a request.
abbrev pub status_of : WebRequest → Text
status_of r = if r.is_get then seek else method_not_allowed

abbrev pub content_type_of : WebRequest → Text
content_type_of r = if r.is_get then text_html else text_plain

abbrev pub body_of : WebRequest → Text
body_of r = if r.is_get then html else empty

abbrev pub length_of : WebRequest → ℕ
length_of r = if r.is_get then sizeof_html else 0

abbrev pub fit : ℕ → ℕ
fit written = if leb buffer_size written then buffer_size else written

module _ (env : Env) (n g : Server) (p num_read : ℕ) (r : WebRequest) (w : Waiter Callback) where
  abbrev pub send_headers : Sys
  send_headers =
      send w.fd (env.sendf_buffer p)
        (fit (env.vsnprintf r.keep_alive (status_of r) (content_type_of r) (length_of r)))
        msg_nosignal

  abbrev pub send_body : Sys
  send_body = send w.fd (env.address (body_of r)) (length_of r) msg_nosignal

  abbrev pub answered : Callback → WebRequest
  answered on_done = record r {
    response_data = body_of r;
    response_length = length_of r;
    on_response_done = on_done;
  }

  module _ (parsed : http_parser_execute p n ≡ ok num_read g) (found : g.app.requests p ≡ some r)
      (waiter : g.waiters p ≡ some w) (complete : r.done ≡ true)
      (url : env.http_parser_parse_url r.url r.url_length ≡ pos 0) (dated : env.dated ≡ true) where
    -- On a connection that is kept alive, with two sends that succeed and a recv that would block: the
    -- calls are the headers, the body, the recv and the arming of the waiter, and the request is reset.
    pub on_read-next_request :
        (fuel headers body errno : ℕ) (rest : List Reply)
        → r.keep_alive ≡ true
        → would_block errno ≡ true
        → g.replies ≡ done headers ∷ done body ∷ failed errno ∷ done 0 ∷ rest
        → (h : Server) × (call env (suc (suc (suc fuel))) on_read p (pos num_read) n ≡ ok tt h)
          × (h.waiters p
              ≡ some (record w {
                wait_type = wait_read;
                cb = on_read;
                flags = 0;
                buffer = env.read_buffer p;
                length = buffer_size;
              }))
          × (h.app.requests p
              ≡ some (record (answered next_request) { url_length = 0; done = false }))
          × (h.app.parses ≡ g.app.parses)
          × (h.replies ≡ rest)
          × (h.calls
              ≡ armed p w epollin
                ∷ recv w.fd (env.read_buffer p) buffer_size 0
                ∷ send_body
                ∷ send_headers
                ∷ g.calls)
    unfolding call
    on_read-next_request fuel headers body errno rest alive blocks q =
        let a = answered next_request in
        let h : Server = record g {
          waiters = update g.waiters p (
              some (record w {
                wait_type = wait_read;
                cb = on_read;
                flags = 0;
                buffer = env.read_buffer p;
                length = buffer_size;
              }));
          app = record g.app {
            requests =
                update (update g.app.requests p (some a)) p
                  (some (record a { url_length = 0; done = false }));
          };
          replies = rest;
          calls =
              armed p w epollin
              ∷ recv w.fd (env.read_buffer p) buffer_size 0
              ∷ send_body
              ∷ send_headers
              ∷ g.calls;
        } in
        (
          h,
          elim (Bool-cases r.is_get) [ inl is ↦ ground arith | inr is ↦ ground arith ],
          ground arith,
          ground arith,
          refl,
          refl,
          refl,
        )

    -- On one that is not, with two sends and a close that succeed: the calls are the headers, the body
    -- and the close, and the request and its waiter are freed.
    pub on_read-request_done :
        (fuel headers body : ℕ) (rest : List Reply)
        → r.keep_alive ≡ false
        → g.replies ≡ done headers ∷ done body ∷ done 0 ∷ rest
        → (h : Server) × (call env (suc (suc (suc fuel))) on_read p (pos num_read) n ≡ ok tt h)
          × (h.waiters p ≡ none)
          × (h.app.requests p ≡ none)
          × (h.replies ≡ rest)
          × (h.calls ≡ close r.sock ∷ send_body ∷ send_headers ∷ g.calls)
    unfolding call
    on_read-request_done fuel headers body rest alive q =
        let h : Server = record g {
          waiters = update g.waiters p none;
          app = record g.app {
            requests = update (update g.app.requests p (some (answered request_done))) p none;
          };
          replies = rest;
          calls = close r.sock ∷ send_body ∷ send_headers ∷ g.calls;
        } in
        (
          h,
          elim (Bool-cases r.is_get) [ inl is ↦ ground arith | inr is ↦ ground arith ],
          ground arith,
          ground arith,
          refl,
          refl,
        )
