-- ===== src/Web/Response.antt =====
-- A response that is sent whole.
use shproject.Prelude.{
  ℕ, ◌≡◌, refl, Bool, true, false, Option, List, ◌∷◌, arith, leb, if◌then◌else◌,
}
use shproject.Prelude.Int.{pos}
use shproject.Prelude.Outcome.{Prog, ok, Returns-inv}
use shproject.Web.{Text, seek, method_not_allowed, text_html, text_plain, html, empty, sizeof_html}
use shproject.Web.Send.{IsWhole, send_all-completes}
use shproject.Web.Handler.{
  Data, headers, body, Io, sent, Conn, Round, Env, send_data, send_http_response, respond,
}

pub send_data_lem :
    (what : Data) (size : ℕ) (answers : List (Option ℕ × ℕ)) (c : Conn)
    → IsWhole answers size
    → (errno : ℕ) × (send_data what size answers c
        ≡ ok (pos 0) (record c { errno = errno; log = sent what size (pos 0) ∷ c.log }))
unfolding send_data
send_data_lem what size answers c whole =
    let (r, s, run, q) =
      Returns-inv
        (send_all-completes answers (record { buf = 0; size = size; errno = c.errno }) whole) in
    let zero_result = q.0 in (s.errno, ground arith)

module _ (env : Env) where
  abbrev pub header_size : Bool → Text → Text → ℕ → ℕ
  header_size keep_alive status content_type size =
      let written = env.vsnprintf keep_alive status content_type size in
      if leb 256 written then 255 else written

  -- What one response adds to the log.
  abbrev pub response : Text → Text → ℕ → Text → Bool → List Io → List Io
  response status data_ size content_type keep_alive log =
      sent (body data_) size (pos 0)
      ∷ sent (headers status size content_type keep_alive)
          (header_size keep_alive status content_type size) (pos 0)
      ∷ log

  abbrev pub response_log : Bool → Bool → List Io → List Io
  response_log true keep_alive = response seek html sizeof_html text_html keep_alive
  response_log false keep_alive = response method_not_allowed empty 0 text_plain keep_alive

  abbrev pub body_size : Bool → ℕ
  body_size is_get = if is_get then sizeof_html else 0

  abbrev pub header_size_of : Bool → Bool → ℕ
  header_size_of true keep_alive = header_size keep_alive seek text_html sizeof_html
  header_size_of false keep_alive = header_size keep_alive method_not_allowed text_plain 0

  abbrev pub answer : Bool → Bool → Round → Prog Conn (Unit {0})
  answer true keep_alive = send_http_response env seek html sizeof_html text_html keep_alive
  answer false keep_alive = send_http_response env method_not_allowed empty 0 text_plain keep_alive

  module _ (dated : env.dated ≡ true)
      (valid : (url : ℕ → ℕ) (n : ℕ) → env.http_parser_parse_url url n ≡ pos 0) where
    response_lem :
        (status : Text) (data_ : Text) (size : ℕ) (content_type : Text) (keep_alive : Bool)
        (t : Round) (c : Conn)
        → IsWhole t.header_sends (header_size keep_alive status content_type size)
        → IsWhole t.body_sends size
        → (e : ℕ) × (send_http_response env status data_ size content_type keep_alive t c
            ≡ ok tt (record c {
              errno = e;
              log = response status data_ size content_type keep_alive c.log;
            }))
    unfolding send_http_response
    response_lem status data_ size content_type keep_alive t c whole whole' =
        let what = headers status size content_type keep_alive in
        let written = header_size keep_alive status content_type size in
        let (e, first) = send_data_lem what written t.header_sends c whole in
        let (e', second) =
          send_data_lem (body data_) size t.body_sends
            (record c { errno = e; log = sent what written (pos 0) ∷ c.log }) whole' in
        (e', rw (dated, first, second) refl)

    pub respond_run :
        (is_get : Bool) (t : Round) (c : Conn)
        → c.request.done ≡ true
        → c.is_get ≡ is_get
        → respond env t c ≡ answer is_get c.request.keep_alive t c
    unfolding respond
    respond_run true t c d i =
        let ok_url = valid c.request.url c.request.url_length in rw (d, ok_url, i) refl
    respond_run false t c d i =
        let ok_url = valid c.request.url c.request.url_length in rw (d, ok_url, i) refl

    pub respond_lem :
        (is_get keep_alive : Bool) (t : Round) (c : Conn)
        → IsWhole t.header_sends (header_size_of is_get keep_alive)
        → IsWhole t.body_sends (body_size is_get)
        → (e : ℕ) × (answer is_get keep_alive t c
            ≡ ok tt (record c { errno = e; log = response_log is_get keep_alive c.log }))
    respond_lem true keep_alive = response_lem seek html sizeof_html text_html keep_alive
    respond_lem false keep_alive = response_lem method_not_allowed empty 0 text_plain keep_alive
