-- ===== src/Web/Tests.antt =====
-- The callbacks on a concrete request.
use shproject.Prelude.{ℕ, ◌≡◌, refl, Bool, true, false, none, some, [], ◌∷◌, arith}
use shproject.Prelude.Int.{pos}
use shproject.Prelude.Outcome.{fault, ◌>>◌, Returns}
use shproject.Web.{WebRequest, on_url, on_done}
use shproject.Web.Url.{Ended, on_url-on_done, on_done-overflow}
use shproject.Web.Handler.{Conn, Env, closed, freed, server_handler_coro}
use shproject.Web.Arrival.{Visit}
use shproject.Web.Session.{
  last, IsServed, session_log, rounds_of, end_rounds, end_log, server_handler_coro-session,
}

abbrev request : ℕ → WebRequest
request n = record { url = λ _. 65; url_length = n; done = false; keep_alive = true }

on_url-on_done_example :
    Returns
      (λ r g. (r ≡ pos 0) × Ended (request 3) (66 ∷ 67 ∷ []) true g)
      ((on_url (66 ∷ 67 ∷ []) >> on_done true) (request 3))
on_url-on_done_example = on_url-on_done (request 3) (66 ∷ 67 ∷ []) true (omega arith)

on_done-overflow_example : (on_url (66 ∷ 67 ∷ []) >> on_done true) (request 126) ≡ fault
on_done-overflow_example = on_done-overflow (request 126) (66 ∷ 67 ∷ []) true refl

abbrev env : Env
env = record { vsnprintf = λ _ _ _ _. 90; dated = true; http_parser_parse_url = λ _ _. pos 0 }

abbrev conn : Conn
conn = record { request = request 0; is_get = false; errno = 0; log = [] }

-- A GET request whose URL comes in two parts.
abbrev visit : Bool → Visit
visit keep_alive = record {
  parts = (47 ∷ 65 ∷ [], 20) ∷ (66 ∷ [], 30) ∷ [];
  num_read = 12;
  is_get = true;
  keep_alive = keep_alive;
  header_sends = (some 90, 0) ∷ [];
  body_sends = (some 100, 0) ∷ (none, 4) ∷ (some 2, 0) ∷ [];
}

visit-IsServed : (keep_alive : Bool) → IsServed env (visit keep_alive)
visit-IsServed keep_alive = record {
  read = (omega arith, (omega arith, tt));
  num_read = omega arith;
  url = omega arith;
  headers_sent = (omega arith, refl);
  body_sent = (omega arith, (refl, (omega arith, refl)));
}

server_handler_coro-session_example :
    Returns
      (λ _ g.
        g.log
        ≡ closed ∷ freed ∷ end_log env (last (visit false)) (session_log env (visit true ∷ []) []))
      (server_handler_coro env true
        (rounds_of env (visit true ∷ []) (end_rounds env (last (visit false))))
        conn)
server_handler_coro-session_example =
    server_handler_coro-session env refl (λ _ _. refl) (visit true ∷ []) (last (visit false)) conn
      (visit-IsServed true, refl, tt) (visit-IsServed false, refl)
