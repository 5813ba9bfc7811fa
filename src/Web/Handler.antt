-- ===== src/Web/Handler.antt =====
-- server_handler_coro of bench/webserver/main.c, the coroutine of one connection.
-- What recv, send and the HTTP parser answer are arguments. A state keeps the request, and what was
-- done to the connection, latest first.
use shproject.Prelude.{
  ℕ, Bool, true, false, not, ◌&&◌, ◌||◌, Option, List, [], ◌∷◌, leb, ◌==◌, if◌then◌else◌,
}
use shproject.Prelude.Int.{ℤ, pos, negsuc}
use shproject.Prelude.Outcome.{
  Prog, ok, fault, abort, out_of_fuel, pure, and_then, ◌>>=◌, ◌>>◌, assert,
}
use shproject.Heap.{update}
use shproject.Web.{
  WebRequest, on_url, on_done, epipe, econnreset, send_all, Text, seek, method_not_allowed,
  text_html, text_plain, html, empty, sizeof_html, Parse, finished, parse_url, parse_done,
}

-- What send_all is given to send.
pub data Data : Type 0 where
  headers : (status : Text) (content_length : ℕ) (content_type : Text) (keep_alive : Bool) → Data
  body : Text → Data

pub data Io : Type 0 where
  sent : Data → (size : ℕ) → (result : ℤ) → Io
  freed closed : Io

-- `is_get` is `parser.method == HTTP_GET`.
pub record Conn : Type 0 where
  pub request : WebRequest
  pub is_get : Bool
  pub errno : ℕ
  pub log : List Io

-- An answer of async_recv: a number of bytes, and what the parser does with them, or an errno.
pub data Recv : Type 0 where
  received : ℕ → Parse → Recv
  recv_failed : ℕ → Recv

-- What async_recv, and async_send for the headers and for the body, answer in one round of the loop.
pub record Round : Type 0 where
  pub recvs : List Recv
  pub header_sends : List (Option ℕ × ℕ)
  pub body_sends : List (Option ℕ × ℕ)

-- What is not of this file: how long the headers are, whether gmtime_r and asctime_r give a time, and
-- what http_parser_parse_url answers.
pub record Env : Type 0 where
  pub vsnprintf : Bool → Text → Text → ℕ → ℕ
  pub dated : Bool
  pub http_parser_parse_url : (ℕ → ℕ) → ℕ → ℤ

abbrev pub exit_error : {A : Type 0} → Prog Conn A
exit_error c = abort

abbrev pub is_reset : ℕ → Bool
is_reset errno = (errno == epipe) || (errno == econnreset)

abbrev pub is_zero : ℤ → Bool
is_zero (pos n) = n == 0
is_zero (negsuc n) = false

abbrev pub is_minus_one : ℤ → Bool
is_minus_one (pos n) = false
is_minus_one (negsuc n) = n == 0

-- A callback on the request of the connection.
unfoldable pub on_request : Prog WebRequest ℤ → Prog Conn ℤ
on_request callback c = elim (callback c.request) [
  | ok r request ↦ ok r (record c { request = request })
  | fault ↦ fault
  | abort ↦ abort
  | out_of_fuel ↦ out_of_fuel
]

-- send_all from the start of a buffer.
unfoldable pub send_data : Data → ℕ → List (Option ℕ × ℕ) → Prog Conn ℤ
unfolding send_all
send_data what size answers c =
    elim (send_all answers (record { buf = 0; size = size; errno = c.errno })) [
      | ok r s ↦ ok r (record c { errno = s.errno; log = sent what size r ∷ c.log })
      | fault ↦ fault
      | abort ↦ abort
      | out_of_fuel ↦ out_of_fuel
    ]

unfoldable pub run_parse : Parse → Prog Conn ℕ
unfolding on_request on_url on_done
run_parse (finished parsed is_get) c = ok parsed (record c { is_get = is_get })
run_parse (parse_url buffer next) c =
    and_then (on_request (on_url buffer) c) (λ result. run_parse (next result))
run_parse (parse_done keep_alive next) c =
    and_then (on_request (on_done keep_alive) c) (λ result. run_parse (next result))

unfoldable pub read_and_parse : List Recv → Prog Conn ℤ
unfolding run_parse
read_and_parse [] = λ c. out_of_fuel
read_and_parse (recv_failed errno ∷ recvs) = if is_reset errno then pure (negsuc 0) else exit_error
read_and_parse (received num_read parse ∷ recvs) =
    let again = read_and_parse recvs in
    (do
      parsed ← run_parse parse
      if not (parsed == num_read)
          then pure (negsuc 0)
          else (λ c. if (parsed == 0) || c.request.done then ok (pos parsed) c else again c))

-- The start of a round.
abbrev pub reset_request : WebRequest → WebRequest
reset_request r = record r {
  url = update r.url 0 0;
  url_length = 0;
  done = false;
  keep_alive = false;
}

module _ (env : Env) where
  -- The headers are cut to what `buffer` holds without its terminator.
  unfoldable pub sendf : Text → ℕ → Text → Bool → List (Option ℕ × ℕ) → Prog Conn ℤ
  unfolding send_data
  sendf status content_length content_type keep_alive answers =
      let written = env.vsnprintf keep_alive status content_type content_length in
      send_data (headers status content_length content_type keep_alive)
        (if leb 256 written then 255 else written) answers

  unfoldable pub send_http_headers :
      Text → ℕ → Text → Bool → List (Option ℕ × ℕ) → Prog Conn (Unit {0})
  unfolding sendf
  send_http_headers status content_length content_type keep_alive answers = do
    assert env.dated
    result ← sendf status content_length content_type keep_alive answers
    if is_zero result then pure tt else exit_error

  unfoldable pub send_http_response : Text → Text → ℕ → Text → Bool → Round → Prog Conn (Unit {0})
  unfolding send_http_headers send_data
  send_http_response status data_ size content_type keep_alive t = do
    send_http_headers status size content_type keep_alive t.header_sends
    result ← send_data (body data_) size t.body_sends
    λ c. if not (is_zero result) && not (is_reset c.errno) then abort else ok tt c

  unfoldable pub respond : Round → Prog Conn (Unit {0})
  unfolding send_http_response
  respond t c =
      (do
        assert c.request.done
        assert (is_zero (env.http_parser_parse_url c.request.url c.request.url_length))
        if c.is_get
            then send_http_response seek html sizeof_html text_html c.request.keep_alive t
            else send_http_response method_not_allowed empty 0 text_plain c.request.keep_alive t)
        c

  -- The `while`; a `break` ends it.
  unfoldable pub handler_loop : List Round → Prog Conn (Unit {0})
  unfolding read_and_parse respond
  handler_loop [] c = if not c.request.keep_alive then ok tt c else out_of_fuel
  handler_loop (t ∷ rounds) c =
      let again = handler_loop rounds in
      if not c.request.keep_alive
      then ok tt c
      else (do
        result ← read_and_parse t.recvs
        λ c.
            if is_minus_one result || (is_zero result && not c.request.done)
            then ok tt c
            else and_then (respond t c) (λ _. again))
          (record c { request = reset_request c.request })

  -- `request` is what the memory of malloc holds, `granted` whether it gives any.
  unfoldable pub server_handler_coro : Bool → List Round → Prog Conn (Unit {0})
  unfolding handler_loop
  server_handler_coro granted rounds = do
    assert granted
    λ c. ok tt (record c { request = record c.request { keep_alive = true } })
    handler_loop rounds
    λ c. ok tt (record c { log = closed ∷ freed ∷ c.log })
