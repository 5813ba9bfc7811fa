-- ===== src/Web.antt =====
-- bench/webserver/main.c: send_all and the callbacks of the HTTP parser.
-- What async_send returns, with errno, and what http_should_keep_alive says are arguments.
use shproject.Prelude.{
  ℕ, ◌+◌, ◌-◌, ◌<◌, ◌≤◌, ◌≡◌, Bool, true, false, Option, none, some, List, [], ◌∷◌, ltb, ◌==◌,
  if◌then◌else◌, length,
}
use shproject.Prelude.Int.{ℤ, pos, negsuc}
use shproject.Prelude.Outcome.{Prog, Outcome, ok, fault, out_of_fuel, pure}
use shproject.Heap.{update}
pub mod Url
pub mod Send
pub mod Handler
pub mod Arrival
pub mod Response
pub mod Session
pub mod Main
pub mod Threads
pub mod Reset
mod Tests

-- `sizeof(request->url)`
abbrev pub url_size : ℕ
url_size = 128

-- `struct web_request`
pub record WebRequest : Type 0 where
  pub url : ℕ → ℕ
  pub url_length : ℕ
  pub done : Bool
  pub keep_alive : Bool

-- memcpy to index `i`.
unfoldable pub memcpy : List ℕ → ℕ → (ℕ → ℕ) → ℕ → ℕ
memcpy [] i url = url
memcpy (x ∷ xs) i url = memcpy xs (i + 1) (update url i x)

unfoldable pub on_url : List ℕ → Prog WebRequest ℤ
on_url buffer request =
    if ltb url_size (request.url_length + length buffer)
    then ok (negsuc 0) request
    else ok (pos 0) (record request {
      url = memcpy buffer request.url_length request.url;
      url_length = request.url_length + length buffer;
    })

-- The write of the terminator is a fault behind the array.
unfoldable pub on_done : Bool → Prog WebRequest ℤ
on_done keep_alive request =
    if ltb request.url_length url_size
    then ok (pos 0) (record request {
      url = update request.url request.url_length 0;
      done = true;
      keep_alive = keep_alive;
    })
    else fault

-- EPIPE and ECONNRESET
abbrev pub epipe : ℕ
epipe = 32

abbrev pub econnreset : ℕ
econnreset = 104

-- The string constants.
pub data Text : Type 0 where
  seek method_not_allowed text_html text_plain html empty : Text

-- `sizeof(HTML)`, which counts the terminator.
abbrev pub sizeof_html : ℕ
sizeof_html = 102

-- What http_parser_execute does with the bytes of a buffer: the calls of the callbacks in order, each
-- with what follows its result. `finished` has what it returns, and whether the method is GET.
pub data Parse : Type 0 where
  finished : ℕ → Bool → Parse
  parse_url : List ℕ → (ℤ → Parse) → Parse
  parse_done : Bool → (ℤ → Parse) → Parse

-- EINTR
abbrev pub eintr : ℕ
eintr = 4

-- `buf`, `size` and errno
pub record Sending : Type 0 where
  pub buf : ℕ
  pub size : ℕ
  pub errno : ℕ

-- One round for each answer of async_send, `none` with its errno or the number of bytes sent, which
-- is at most the number asked for.
unfoldable pub send_all : List (Option ℕ × ℕ) → Prog Sending ℤ
send_all [] = λ s. if s.size == 0 then ok (pos 0) s else out_of_fuel
send_all ((none, errno) ∷ answers) =
    let rest = send_all answers in
    λ s.
      if s.size == 0
      then ok (pos 0) s
      else if errno == eintr
      then rest (record s { errno = errno })
      else ok (negsuc 0) (record s { errno = errno })
send_all ((some sent, errno) ∷ answers) =
    let rest = send_all answers in
    λ s.
      if s.size == 0
      then ok (pos 0) s
      else rest (record s { buf = s.buf + sent; size = s.size - sent })
