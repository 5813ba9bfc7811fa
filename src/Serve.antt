-- ===== src/Serve.antt =====
-- bench/webserver/eventserv.c: the web server on callbacks, over Event.
-- The HTTP parser is a parameter: a `Parse` is what http_parser_execute does with the bytes that recv
-- put into the buffer, the calls of the callbacks in order, each with what follows its result.
-- `exit_error` ends a run as a failed assertion does.
pub mod Calls
pub mod Cycle
pub mod Visit
pub mod Session
pub mod Reset
pub mod Depth
pub mod Start
mod Tests
use shproject.Prelude.{
  ℕ, ◌+◌, Bool, true, false, not, ◌||◌, Option, none, some, List, [], ◌∷◌, ltb, leb, ◌==◌,
  if◌then◌else◌, length,
}
use shproject.Prelude.Int.{ℤ, pos, negsuc}
use shproject.Prelude.Outcome.{Prog, ok, fault, abort, out_of_fuel, pure, and_then, ◌>>=◌, ◌>>◌}
use shproject.Heap.{update}
use shproject.Web.{memcpy, epipe, econnreset, Text, Parse, finished, parse_url, parse_done}
use shproject.Event.{Waiter, Net}

-- MSG_NOSIGNAL
abbrev pub msg_nosignal : ℕ
msg_nosignal = 0x4000

-- The functions that are passed as callbacks.
pub data Callback : Type 0 where
  on_accept on_read next_request request_done send_http_response_helper : Callback

-- `sizeof(request->url)`, `sizeof(request->read_buffer)` and `sizeof(request->sendf_buffer)`
abbrev pub url_size : ℕ
url_size = 128

abbrev pub buffer_size : ℕ
buffer_size = 512

-- `struct web_request` but for its waiter, which is the one at the same address, and its buffers.
-- `is_get` is `parser.method == HTTP_GET`.
pub record WebRequest : Type 0 where
  pub sock : ℕ
  pub url : ℕ → ℕ
  pub url_length : ℕ
  pub done : Bool
  pub keep_alive : Bool
  pub is_get : Bool
  pub response_data : Text
  pub response_length : ℕ
  pub on_response_done : Callback

-- The requests, and what the next calls of http_parser_execute do.
pub record Requests : Type 0 where
  pub requests : ℕ → Option WebRequest
  pub parses : List Parse

abbrev pub Server : Type 0
Server = Net Callback Requests

-- What is not of this file: the addresses of a request's buffers and of the constants, what a header
-- of a status, a content type and a length is long, whether gmtime_r and asctime_r give a time, what
-- http_parser_parse_url answers, and what fresh memory holds.
pub record Env : Type 0 where
  pub read_buffer : ℕ → ℕ
  pub sendf_buffer : ℕ → ℕ
  pub address : Text → ℕ
  pub vsnprintf : Bool → Text → Text → ℕ → ℕ
  pub dated : Bool
  pub http_parser_parse_url : (ℕ → ℕ) → ℕ → ℤ
  pub new_waiter : Waiter Callback
  pub new_request : WebRequest

abbrev pub exit_error : {A : Type 0} → Prog Server A
exit_error n = abort

-- `result == -EPIPE || result == -ECONNRESET`
unfoldable pub is_reset : ℤ → Bool
is_reset (pos n) = false
is_reset (negsuc n) = (n + 1 == epipe) || (n + 1 == econnreset)

unfoldable pub get_request : ℕ → Prog Server WebRequest
get_request p n = elim (n.app.requests p) [ none ↦ fault | some r ↦ ok r n ]

abbrev pub put_request : ℕ → WebRequest → Prog Server (Unit {0})
put_request p r n =
    ok tt (record n { app = record n.app { requests = update n.app.requests p (some r) } })

-- malloc; an empty list is a NULL.
unfoldable pub malloc : Prog Server ℕ
malloc n = elim n.fresh [ [] ↦ abort | p ∷ rest ↦ ok p (record n { fresh = rest }) ]

unfoldable pub free : ℕ → Prog Server (Unit {0})
free p n = elim (n.app.requests p) [
  | none ↦ fault
  | some r ↦ ok tt (record n {
    waiters = update n.waiters p none;
    app = record n.app { requests = update n.app.requests p none };
  })
]

unfoldable pub on_parse_url : ℕ → List ℕ → Prog Server ℤ
unfolding get_request
on_parse_url p buffer = do
  r ← get_request p
  if ltb url_size (r.url_length + length buffer) then pure (negsuc 0) else (do
    put_request p (record r {
      url = memcpy buffer r.url_length r.url;
      url_length = r.url_length + length buffer;
    })
    pure (pos 0))

-- The write of the terminator is a fault behind the array.
unfoldable pub on_parse_done : ℕ → Bool → Prog Server ℤ
unfolding get_request
on_parse_done p keep_alive = do
  r ← get_request p
  if ltb r.url_length url_size
      then (do
        put_request p
            (record r { url = update r.url r.url_length 0; done = true; keep_alive = keep_alive })
        pure (pos 0))
      else (λ n. fault)

-- The callbacks of one call of http_parser_execute.
unfoldable pub run_parse : ℕ → Parse → Prog Server ℕ
unfolding get_request on_parse_url on_parse_done
run_parse p (finished parsed is_get) = do
  r ← get_request p
  put_request p (record r { is_get = is_get })
  pure parsed
run_parse p (parse_url buffer next) = do result ← on_parse_url p buffer; run_parse p (next result)
run_parse p (parse_done keep_alive next) = do
  result ← on_parse_done p keep_alive
  run_parse p (next result)

unfoldable pub http_parser_execute : ℕ → Prog Server ℕ
unfolding run_parse
http_parser_execute p n = elim n.app.parses [
  | [] ↦ out_of_fuel
  | parse ∷ rest ↦ run_parse p parse (record n { app = record n.app { parses = rest } })
]
