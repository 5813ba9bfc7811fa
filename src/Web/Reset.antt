-- ===== src/Web/Reset.antt =====
-- A client that resets the connection before its response is sent.
use shproject.Prelude.{ℕ, ◌≡◌, refl, ◌<◌, Bool, true, Option, none, List, ◌∷◌, arith}
use shproject.Prelude.Int.{pos, negsuc}
use shproject.Prelude.Outcome.{ok, abort}
use shproject.Web.{Text}
use shproject.Web.Handler.{
  headers, body, sent, Conn, Round, Env, is_reset, send_data, send_http_response,
}
use shproject.Web.Send.{IsWhole}
use shproject.Web.Response.{header_size, send_data_lem}

data_run :
    (what : _) (size errno : ℕ) (c : Conn) (rest : List (Option ℕ × ℕ))
    → 0 < size
    → is_reset errno ≡ true
    → send_data what size ((none, errno) ∷ rest) c
      ≡ ok (negsuc 0) (record c { errno = errno; log = sent what size (negsuc 0) ∷ c.log })
unfolding send_data
data_run what size errno c rest some_left reset = ground arith

module _ (env : Env) (dated : env.dated ≡ true) (status data_ content_type : Text) (size errno : ℕ)
    (keep_alive : Bool) (t : Round) (c : Conn) (rest : List (Option ℕ × ℕ))
    (reset : is_reset errno ≡ true) where
  -- With the date granted, while the headers are sent: it ends the process.
  send_http_response-headers_reset :
      0 < header_size env keep_alive status content_type size
      → t.header_sends ≡ (none, errno) ∷ rest
      → send_http_response env status data_ size content_type keep_alive t c ≡ abort
  unfolding send_http_response
  send_http_response-headers_reset some_left q =
      let run =
        data_run (headers status size content_type keep_alive)
          (header_size env keep_alive status content_type size) errno c rest some_left reset in
      rw (dated, q, run) refl

  -- With the date granted, while the body is sent, and when the headers were: it is no error.
  pub send_http_response-body_reset :
      0 < size
      → IsWhole t.header_sends (header_size env keep_alive status content_type size)
      → t.body_sends ≡ (none, errno) ∷ rest
      → (g : Conn) × (send_http_response env status data_ size content_type keep_alive t c
          ≡ ok tt g)
  unfolding send_http_response
  send_http_response-body_reset some_left whole q =
      let what = headers status size content_type keep_alive in
      let written = header_size env keep_alive status content_type size in
      let (e, run) = send_data_lem what written t.header_sends c whole in
      let b = record c { errno = e; log = sent what written (pos 0) ∷ c.log } in
      let run' = data_run (body data_) size errno b rest some_left reset in
      (
        record b { errno = errno; log = sent (body data_) size (negsuc 0) ∷ b.log },
        rw (dated, run, q, run', reset) refl,
      )
