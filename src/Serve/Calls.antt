-- ===== src/Serve/Calls.antt =====
-- The callbacks of bench/webserver/eventserv.c, and its loop.
use shproject.Prelude.{ℕ, zero, suc, Bool, false, not, ◌&&◌, List, leb, ◌==◌, if◌then◌else◌}
use shproject.Prelude.Int.{ℤ, pos, negsuc, is_negative}
use shproject.Prelude.Outcome.{Prog, out_of_fuel, pure, ◌>>=◌, ◌>>◌, assert}
use shproject.Event.{close, setsockopt, is_zero, get_waiter, system, async_init_waiter}
use shproject.Event.Calls.{Poll, async_accept, async_recv, async_send, async_run_loop}
use shproject.Web.{Text, seek, method_not_allowed, text_html, text_plain, html, empty, sizeof_html}
use shproject.Serve.{
  msg_nosignal, Callback, on_accept, on_read, next_request, request_done, send_http_response_helper,
  buffer_size, WebRequest, Server, Env, exit_error, is_reset, get_request, put_request, malloc,
  free, http_parser_execute,
}

unfoldable pub done_request : ℕ → ℤ → Prog Server (Unit {0})
unfolding is_reset get_request system free
done_request p result = if is_negative result && not (is_reset result) then exit_error else (do
  r ← get_request p
  reply ← system (close r.sock)
  if is_zero reply then free p else exit_error)

-- What follows a call that can fail.
abbrev pub or_done : ℕ → ℤ → Prog Server (Unit {0})
or_done p result = if is_negative result then done_request p result else pure tt

module _ (env : Env) where
  module _ (call : Callback → ℕ → ℤ → Prog Server (Unit {0})) where
    -- A text that does not fit is sent with the terminator that vsnprintf put behind it.
    unfoldable pub sendf : ℕ → Callback → Bool → Text → Text → ℕ → Prog Server ℤ
    unfolding async_send
    sendf p on_done keep_alive status content_type content_length =
        let written = env.vsnprintf keep_alive status content_type content_length in
        async_send call p (env.sendf_buffer p)
          (if leb buffer_size written then buffer_size else written) msg_nosignal on_done

    unfoldable pub send_http_headers : ℕ → Text → ℕ → Text → Bool → Callback → Prog Server ℤ
    unfolding sendf
    send_http_headers p status content_length content_type keep_alive on_done = do
      assert env.dated
      sendf p on_done keep_alive status content_type content_length

    unfoldable pub response_helper : ℕ → ℤ → Prog Server (Unit {0})
    unfolding get_request async_send done_request
    response_helper p result = if is_negative result then exit_error else (do
      r ← get_request p
      sent ←
          async_send call p (env.address r.response_data) r.response_length msg_nosignal
            r.on_response_done
      or_done p sent)

    unfoldable pub send_http_response :
        ℕ → Text → Text → ℕ → Text → Bool → Callback → Prog Server (Unit {0})
    unfolding get_request send_http_headers done_request
    send_http_response p status data_ size content_type keep_alive on_done = do
      r ← get_request p
      put_request p
          (record r { response_data = data_; response_length = size; on_response_done = on_done })
      result ← send_http_headers p status size content_type keep_alive send_http_response_helper
      or_done p result

    -- async_recv into the request's buffer, as three functions call it.
    unfoldable pub read_more : ℕ → Prog Server ℤ
    unfolding async_recv
    read_more p = async_recv call p (env.read_buffer p) buffer_size 0 on_read

    unfoldable pub start_next : ℕ → ℤ → Prog Server (Unit {0})
    unfolding get_request read_more done_request
    start_next p result = if is_negative result then exit_error else (do
      r ← get_request p
      put_request p (record r { url_length = 0; done = false })
      num_read ← read_more p
      or_done p num_read)

    unfoldable pub respond : ℕ → WebRequest → Prog Server (Unit {0})
    unfolding send_http_response
    respond p r =
        let on_done = if r.keep_alive then next_request else request_done in
        (do
          assert (elim (env.http_parser_parse_url r.url r.url_length) [
            | pos n ↦ n == 0
            | negsuc n ↦ false
          ])
          if r.is_get
              then send_http_response p seek html sizeof_html text_html r.keep_alive on_done
              else send_http_response p method_not_allowed empty 0 text_plain r.keep_alive on_done)

    unfoldable pub parse_read : ℕ → ℕ → Prog Server (Unit {0})
    unfolding http_parser_execute get_request read_more done_request respond
    parse_read p num_read = do
      parsed ← http_parser_execute p
      r ← get_request p
      if not (parsed == num_read)
          then done_request p (pos 0)
          else (if (parsed == 0) && not r.done
              then done_request p (pos 0)
              else (if not r.done
                  then (do result ← read_more p; or_done p result)
                  else respond p r))

    unfoldable pub read_request : ℕ → ℤ → Prog Server (Unit {0})
    unfolding is_reset done_request parse_read
    read_request p (pos num_read) = parse_read p num_read
    read_request p (negsuc e) = if is_reset (negsuc e) then done_request p (pos 0) else exit_error

    -- The end of on_accept, on the memory that malloc gave.
    unfoldable pub open_request : ℕ → ℕ → ℕ → Prog Server (Unit {0})
    unfolding async_init_waiter read_more
    open_request p epoll_fd sock = do
      async_init_waiter p env.new_waiter epoll_fd sock
      put_request p (record env.new_request { sock = sock; url_length = 0; done = false })
      num_read ← read_more p
      if is_negative num_read then exit_error else pure tt

    unfoldable pub accept_request : ℕ → ℤ → Prog Server (Unit {0})
    unfolding async_accept get_waiter system malloc open_request
    accept_request p (negsuc e) = exit_error
    accept_request p (pos sock) = do
      error ← async_accept call p on_accept
      if is_negative error then exit_error else (do
        reply ← system (setsockopt sock)
        if is_zero reply
            then (do r ← malloc; w ← get_waiter p; open_request r w.epoll_fd sock)
            else exit_error)

    -- The function that a callback names.
    unfoldable pub run : Callback → ℕ → ℤ → Prog Server (Unit {0})
    unfolding accept_request read_request start_next done_request response_helper
    run on_accept = accept_request
    run on_read = read_request
    run next_request = start_next
    run request_done = done_request
    run send_http_response_helper = response_helper

  -- A callback calls the next one before it returns: fuel bounds how deep they nest.
  unfoldable pub call : ℕ → Callback → ℕ → ℤ → Prog Server (Unit {0})
  unfolding run
  call zero cb p result = λ n. out_of_fuel
  call (suc fuel) cb p result = run (call fuel) cb p result

  -- The loop ends the process when it fails.
  unfoldable pub main_loop : ℕ → List Poll → Prog Server (Unit {0})
  unfolding call async_run_loop
  main_loop fuel answers = do
    result ← async_run_loop (call fuel) answers
    if is_negative result then exit_error else pure tt
