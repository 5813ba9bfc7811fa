-- ===== src/Serve/Visit.antt =====
-- A connection of the web server on callbacks: its requests, the events, the kernel's answers and the
-- calls.
use shproject.Prelude.{ℕ, ◌<◌, ◌≡◌, Bool, true, false, some, List, [], ◌∷◌, length, if◌then◌else◌}
use shproject.Heap.{update}
use shproject.Async.{Reply, done, failed, would_block}
use shproject.Event.{wait_read, Waiter, Sys, send, recv, close, epoll_del, epollin}
use shproject.Event.Resume.{armed}
use shproject.Web.{
  html, empty, seek, method_not_allowed, text_html, text_plain, sizeof_html, memcpy, Parse,
  finished, parse_url, parse_done,
}
use shproject.Serve.{
  msg_nosignal, url_size, buffer_size, Callback, on_read, WebRequest, Server, Env,
}
use shproject.Serve.Cycle.{fit}

-- A request that comes with one event: its URL, how many bytes it has and whether it is a GET; how
-- many bytes the two sends write; the errno of the recv that follows.
pub record Visit : Type 0 where
  pub url : List ℕ
  pub num_read : ℕ
  pub is_get : Bool
  pub headers : ℕ
  pub body : ℕ
  pub errno : ℕ

abbrev pub parse_of : Visit → Bool → Parse
parse_of v keep_alive =
    parse_url v.url (λ _. parse_done keep_alive (λ _. finished v.num_read v.is_get))

module _ (env : Env) (p epoll_fd sock : ℕ) where
  -- The waiter of a connection on `sock`.
  abbrev pub reader : ℕ → Waiter Callback
  reader num_written = record {
    epoll_fd = epoll_fd;
    wait_type = wait_read;
    cb = on_read;
    fd = sock;
    buffer = env.read_buffer p;
    length = buffer_size;
    num_written = num_written;
    flags = 0;
  }

  -- The connection waits for the bytes of a request.
  pub record IsWaiting (n : Server) : Type 0 where
    pub waiter : (k : ℕ) × (n.waiters p ≡ some (reader k))
    pub request :
        (r : WebRequest) × (n.app.requests p ≡ some r)
        × (r.url_length ≡ 0)
        × (r.done ≡ false)
        × (r.sock ≡ sock)

  abbrev pub visited : WebRequest → Visit → Bool → WebRequest
  visited r v keep_alive = record r {
    url = update (memcpy v.url 0 r.url) (length v.url) 0;
    url_length = length v.url;
    done = true;
    keep_alive = keep_alive;
    is_get = v.is_get;
  }

  abbrev pub receive : Sys
  receive = recv sock (env.read_buffer p) buffer_size 0

  -- The calls of one response, latest first.
  abbrev pub response_calls : Visit → Bool → List Sys → List Sys
  response_calls v keep_alive calls =
      send sock (env.address (if v.is_get then html else empty))
        (if v.is_get then sizeof_html else 0) msg_nosignal
      ∷ send sock (env.sendf_buffer p)
          (fit (
            env.vsnprintf keep_alive (if v.is_get then seek else method_not_allowed)
              (if v.is_get then text_html else text_plain) (if v.is_get then sizeof_html else 0)))
          msg_nosignal
      ∷ receive
      ∷ epoll_del epoll_fd sock
      ∷ calls

  -- Those of a request and of the wait for the next one.
  abbrev pub visit_calls : Visit → List Sys → List Sys
  visit_calls v calls = armed p (reader 0) epollin ∷ receive ∷ response_calls v true calls

  -- What the kernel answers to them, the earliest first.
  abbrev pub visit_answers : Visit → List Reply → List Reply
  visit_answers v rest =
      done 0 ∷ done v.num_read ∷ done v.headers ∷ done v.body ∷ failed v.errno ∷ done 0 ∷ rest

  abbrev pub last_answers : Visit → List Reply
  last_answers v = done 0 ∷ done v.num_read ∷ done v.headers ∷ done v.body ∷ done 0 ∷ []

  -- A whole connection: requests that keep it alive, and a last one.
  abbrev pub session_answers : List Visit → Visit → List Reply
  session_answers [] last = last_answers last
  session_answers (v ∷ vs) last = visit_answers v (session_answers vs last)

  abbrev pub session_parses : List Visit → Visit → List Parse
  session_parses [] last = parse_of last false ∷ []
  session_parses (v ∷ vs) last = parse_of v true ∷ session_parses vs last

  abbrev pub session_calls : List Visit → Visit → List Sys → List Sys
  session_calls [] last calls = close sock ∷ response_calls last false calls
  session_calls (v ∷ vs) last calls = session_calls vs last (visit_calls v calls)

  -- One event for each request.
  abbrev pub session_events : ℕ → List Visit → List (ℕ × ℕ)
  session_events revents [] = (p, revents) ∷ []
  session_events revents (v ∷ vs) = (p, revents) ∷ session_events revents vs

  -- The URL fits, and the recv that follows would block.
  abbrev pub IsFit : Visit → Type 0
  IsFit v = (length v.url < url_size) × (would_block v.errno ≡ true)

  abbrev pub AllFit : List Visit → Type 0
  AllFit [] = Unit {0}
  AllFit (v ∷ vs) = IsFit v × AllFit vs
