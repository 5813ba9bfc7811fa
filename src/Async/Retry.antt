-- ===== src/Async/Retry.antt =====
-- The loop of async_read, async_write, async_accept, async_send and async_recv.
use shproject.Prelude.{
  ℕ, ◌≡◌, refl, ◌∙◌, Bool, true, false, not, ◌&&◌, Option, none, some, List, [], ◌∷◌, ◌++◌, arith,
}
use shproject.Prelude.Outcome.{Prog, ok, Returns, returns}
use shproject.Async.{
  Reply, done, failed, Call, event_wait, getsockopt, Try, Io, would_block, has_error,
  wait_return_socket_error, retry,
}
use shproject.Async.Connect.{pending}

abbrev would_wait : Reply → Bool → Bool
would_wait (done result) error = false
would_wait (failed errno) error = would_block errno && not error

-- Every one of the tries would block, and waits without an error on the socket.
abbrev pub all_wait : List Try → Bool
all_wait [] = true
all_wait (t ∷ tries) = would_wait t.reply (has_error t.revents) && all_wait tries

-- The calls of tries that wait: each is made once, and followed by one wait for the events.
abbrev pub waited : Call → ℕ → ℕ → List Try → List Call → List Call
waited call fd events [] calls = calls
waited call fd events (t ∷ tries) calls =
    waited call fd events tries (event_wait fd events ∷ call ∷ calls)

waits-inv :
    (reply : Reply) (error : Bool)
    → would_wait reply error ≡ true
    → (errno : ℕ) × (reply ≡ failed errno) × (would_block errno ≡ true) × (error ≡ false)
waits-inv (done result) error h = absurd cc
waits-inv (failed errno) error h = (errno, refl, ground arith, ground arith)

&&-inv : (a b : Bool) → (a && b) ≡ true → (a ≡ true) × (b ≡ true)
&&-inv true b h = (refl, h)
&&-inv false b h = absurd cc

pub error_run :
    (option : Reply) (fd events revents : ℕ) (again : Prog Io (Option ℕ)) (io : Io)
    → has_error revents ≡ true
    → wait_return_socket_error fd events revents option again io
      ≡ ok none (record {
        errno = pending option;
        calls = getsockopt fd ∷ event_wait fd events ∷ io.calls;
      })
unfolding wait_return_socket_error
error_run (done error) fd events revents again io e = ground arith
error_run (failed errno) fd events revents again io e = ground arith

waits_run :
    (call : Call) (fd events errno : ℕ) (t : Try) (tries : List Try) (io : Io)
    → t.reply ≡ failed errno
    → would_block errno ≡ true
    → has_error t.revents ≡ false
    → retry call fd events (t ∷ tries) io
      ≡ retry call fd events tries
          (record { errno = errno; calls = event_wait fd events ∷ call ∷ io.calls })
unfolding retry
waits_run call fd events errno t tries io r b e = ground arith

retry-waited :
    (call : Call) (fd events : ℕ) (before tries : List Try) (io : Io)
    → all_wait before ≡ true
    → (errno : ℕ) × (retry call fd events (before ++ tries) io
        ≡ retry call fd events tries
            (record { errno = errno; calls = waited call fd events before io.calls }))
retry-waited call fd events [] tries io h = (io.errno, refl)
retry-waited call fd events (t ∷ before) tries io h =
    let (first, rest) = &&-inv (would_wait t.reply (has_error t.revents)) (all_wait before) h in
    let (errno, r, b, e) = waits-inv t.reply (has_error t.revents) first in
    let (errno', later) =
      retry-waited call fd events before tries
        (record { errno = errno; calls = event_wait fd events ∷ call ∷ io.calls }) rest in
    (errno', waits_run call fd events errno t (before ++ tries) io r b e ∙ later)

module _ (call : Call) (fd events : ℕ) (before after : List Try) (t : Try) (io : Io)
    (h : all_wait before ≡ true) where
  -- The first try that does not block ends the loop with its result. Each try before was followed
  -- by one wait.
  pub retry-done :
      (result : ℕ)
      → t.reply ≡ done result
      → Returns
          (λ v g. (v ≡ some result) × (g.calls ≡ call ∷ waited call fd events before io.calls))
          (retry call fd events (before ++ t ∷ after) io)
  unfolding retry
  retry-done result r =
      rw ((retry-waited call fd events before (t ∷ after) io h).1, r) (returns (refl, refl))

  -- The first try that fails otherwise than by blocking ends the loop with -1, and errno is that of
  -- the call.
  pub retry-failed :
      (errno : ℕ)
      → t.reply ≡ failed errno
      → would_block errno ≡ false
      → Returns
          (λ v g.
            (v ≡ none)
            × (g.errno ≡ errno)
            × (g.calls ≡ call ∷ waited call fd events before io.calls))
          (retry call fd events (before ++ t ∷ after) io)
  unfolding retry
  retry-failed errno r b =
      rw ((retry-waited call fd events before (t ∷ after) io h).1, r, b)
        (returns (refl, refl, refl))

  -- The first try that blocks, and whose wait ends with an error, ends the loop with -1; errno is
  -- the error of the socket, asked for once.
  pub retry-socket_error :
      (errno : ℕ)
      → t.reply ≡ failed errno
      → would_block errno ≡ true
      → has_error t.revents ≡ true
      → Returns
          (λ v g.
            (v ≡ none)
            × (g.errno ≡ pending t.option)
            × (g.calls
                ≡ getsockopt fd
                  ∷ event_wait fd events
                  ∷ call
                  ∷ waited call fd events before io.calls))
          (retry call fd events (before ++ t ∷ after) io)
  unfolding retry
  retry-socket_error errno r b e =
      let (errno', run) = retry-waited call fd events before (t ∷ after) io h in
      rw
        (
          run,
          r,
          b,
          error_run t.option fd events t.revents (retry call fd events after)
              (record { errno = errno; calls = call ∷ waited call fd events before io.calls }) e,
        )
        (returns (refl, refl, refl))

-- How a try ends the loop: with a result, with an errno of its own, or with the socket's error after
-- it has waited.
pub data Last : Type 0 where
  gives : ℕ → Last
  fails errs : (errno : ℕ) → Last

abbrev pub IsLast : Last → Try → Type 0
IsLast (gives result) t = t.reply ≡ done result
IsLast (fails errno) t = (t.reply ≡ failed errno) × (would_block errno ≡ false)
IsLast (errs errno) t =
    (t.reply ≡ failed errno) × (would_block errno ≡ true) × (has_error t.revents ≡ true)

abbrev pub LastLeaves : Last → Call → ℕ → ℕ → Try → Io → List Call → Option ℕ → Io → Type 0
LastLeaves (gives result) call fd events t io calls v g =
    (v ≡ some result) × (g.calls ≡ call ∷ calls)
LastLeaves (fails errno) call fd events t io calls v g =
    (v ≡ none) × (g.errno ≡ errno) × (g.calls ≡ call ∷ calls)
LastLeaves (errs errno) call fd events t io calls v g =
    (v ≡ none)
    × (g.errno ≡ pending t.option)
    × (g.calls ≡ getsockopt fd ∷ event_wait fd events ∷ call ∷ calls)

-- After tries that block and wait without an error, each followed by one wait, the first other one
-- ends the loop: with its result, with the errno of the call, or with the socket's error.
pub retry_lem :
    (last : Last) (call : Call) (fd events : ℕ) (before after : List Try) (t : Try) (io : Io)
    → all_wait before ≡ true
    → IsLast last t
    → Returns
        (LastLeaves last call fd events t io (waited call fd events before io.calls))
        (retry call fd events (before ++ t ∷ after) io)
retry_lem (gives result) call fd events before after t io h q =
    retry-done call fd events before after t io h result q
retry_lem (fails errno) call fd events before after t io h q =
    retry-failed call fd events before after t io h errno q.0 q.1
retry_lem (errs errno) call fd events before after t io h q =
    retry-socket_error call fd events before after t io h errno q.0 q.1 q.2
