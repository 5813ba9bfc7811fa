-- ===== src/Serve/Tests.antt =====
-- The web server on callbacks, on a concrete request.
use shproject.Heap.{update}
use shproject.Prelude.{
  arith, ◌+◌, ◌*◌, Bool, ◌≡◌, refl, true, false, none, some, List, [], ◌∷◌, if◌then◌else◌, ◌==◌,
}
use shproject.Prelude.Int.{pos, negsuc}
use shproject.Prelude.Outcome.{fault, ok, ◌>>◌}
use shproject.Async.{Reply, done, failed, would_block}
use shproject.Event.{wait_read, Waiter, handle_event, close, recv, epoll_del, epollin, arm_waiter}
use shproject.Web.{memcpy, Parse, finished, parse_url, parse_done, empty}
use shproject.Serve.{Callback, on_read, WebRequest, Server, Env, http_parser_execute}
use shproject.Serve.Calls.{call}
use shproject.Serve.Reset.{read_failed, handle_event-reset}
use shproject.Serve.Depth.{again, request, none_left, on_read-Burst}
use shproject.Event.Calls.{handle_events}
use shproject.Serve.Visit.{
  Visit, session_parses, session_answers, session_events, session_calls, IsWaiting,
}
use shproject.Serve.Session.{handle_events-session}

abbrev waiter : Waiter Callback
waiter = record {
  epoll_fd = 3;
  wait_type = wait_read;
  cb = on_read;
  fd = 5;
  buffer = 4096;
  length = 512;
  num_written = 0;
  flags = 0;
}

abbrev initial : WebRequest
initial = record {
  sock = 5;
  url = λ _. 65;
  url_length = 0;
  done = false;
  keep_alive = false;
  is_get = false;
  response_data = empty;
  response_length = 0;
  on_response_done = on_read;
}

abbrev env : Env
env = record {
  read_buffer = λ _. 4096;
  sendf_buffer = λ _. 8192;
  address = λ _. 1024;
  vsnprintf = λ _ _ _ _. 90;
  dated = true;
  http_parser_parse_url = λ _ _. pos 0;
  new_waiter = waiter;
  new_request = initial;
}

-- The bytes of a request for a short URL.
abbrev bytes : Bool → Parse
bytes keep_alive = parse_url (47 ∷ []) (λ _. parse_done keep_alive (λ _. finished 18 true))

abbrev server : List Parse → List Reply → Server
server parses replies = record {
  waiters = λ q. if q == 64 then some waiter else none;
  app = record { requests = λ q. if q == 64 then some initial else none; parses = parses };
  replies = replies;
  calls = [];
  fresh = [];
}

abbrev reset_replies : List Reply
reset_replies = done 0 ∷ failed 104 ∷ done 0 ∷ []

handle_event-reset_example :
    (handle_event (call env 1) 64 1 (server [] reset_replies)
      ≡ (call env 1 on_read 64 (negsuc 103) >> arm_waiter 64 epollin)
          (read_failed (server [] reset_replies) waiter []))
    × (g : Server) × (call env 1 on_read 64
          (negsuc 103)
          (read_failed (server [] reset_replies) waiter [])
        ≡ ok tt g)
    × (g.calls ≡ close 5 ∷ recv 5 4096 512 0 ∷ epoll_del 3 5 ∷ [])
    × (g.replies ≡ [])
    × (g.waiters 64 ≡ none)
    × (g.app.requests 64 ≡ none)
    × (arm_waiter 64 epollin g ≡ fault)
    × (handle_event (call env 1) 64 1 (server [] reset_replies) ≡ fault)
handle_event-reset_example =
    handle_event-reset env (server [] reset_replies) 64 104 refl waiter initial 0 1 [] (call env 1)
      refl refl refl refl refl refl refl

-- The request when its bytes are parsed.
abbrev complete : Bool → WebRequest
complete keep_alive = record initial {
  url = update (update initial.url 0 47) 1 0;
  url_length = 1;
  done = true;
  keep_alive = keep_alive;
  is_get = true;
}

-- Two requests at once; the second one ends the connection.
abbrev pipelined : Server
pipelined =
    server (bytes true ∷ bytes false ∷ [])
      (done 90 ∷ done 102 ∷ done 18 ∷ done 90 ∷ done 102 ∷ done 0 ∷ [])

unfoldable parsed_pipelined : (g : Server) × (http_parser_execute 64 pipelined ≡ ok 18 g)
unfolding http_parser_execute
parsed_pipelined = (_, refl)

abbrev second : Server
second =
    again env pipelined parsed_pipelined.0 64 18 (complete true) waiter
      (done 90 ∷ done 102 ∷ done 0 ∷ [])

on_read-Burst_example :
    call env (3 * 1 + 3) on_read 64 (pos 18) pipelined ≡ call env 3 on_read 64 (pos 18) second
unfolding parsed_pipelined memcpy
on_read-Burst_example = on_read-Burst env 64 second 18 1 pipelined 18 3 refl (
    request parsed_pipelined.0 (complete true) waiter 90 102 18 (done 90 ∷ done 102 ∷ done 0 ∷ [])
      parsed_pipelined.1 refl refl refl refl refl refl none_left)

-- Two requests, one after the other; the second one is no GET, and ends the connection.
abbrev first : Visit
first = record { url = 47 ∷ []; num_read = 18; is_get = true; headers = 90; body = 102; errno = 11 }

abbrev final : Visit
final = record {
  url = 47 ∷ 65 ∷ [];
  num_read = 20;
  is_get = false;
  headers = 90;
  body = 0;
  errno = 11;
}

abbrev visited_server : Server
visited_server =
    server (session_parses env 64 3 5 (first ∷ []) final)
      (session_answers env 64 3 5 (first ∷ []) final)

visited_server-IsWaiting : IsWaiting env 64 3 5 visited_server
visited_server-IsWaiting = record {
  waiter = (0, refl);
  request = (initial, refl, refl, refl, refl);
}

handle_events-session_example :
    (g : Server) × (handle_events
        (call env 3)
        (session_events env 64 3 5 1 (first ∷ []))
        visited_server
      ≡ ok tt g)
    × (g.waiters 64 ≡ none)
    × (g.app.requests 64 ≡ none)
    × (g.replies ≡ [])
    × (g.calls ≡ session_calls env 64 3 5 (first ∷ []) final [])
unfolding would_block
handle_events-session_example =
    handle_events-session env 64 3 5 0 1 refl refl refl (λ _ _. refl) (first ∷ []) final
      visited_server visited_server-IsWaiting ((omega arith, refl), tt) (omega arith) refl refl
