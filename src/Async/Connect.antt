-- ===== src/Async/Connect.antt =====
-- async_connect on every answer of the kernel.
use shproject.Prelude.{
  ℕ, ◌≡◌, refl, false, Option, none, some, ◌∷◌, arith, ◌==◌, ◌⊎◌, inl, inr, Bool-cases,
  if◌then◌else◌,
}
use shproject.Prelude.Outcome.{Returns, returns}
use shproject.Async.{
  einprogress, waitout, Reply, done, failed, connect, event_wait, getsockopt, Io, async_connect,
}

-- The error that a reply of getsockopt(SO_ERROR) stands for.
abbrev pub pending : Reply → ℕ
pending (done error) = error
pending (failed errno) = errno

-- The error of a connection, 0 if it was made: a connect in progress ends with the socket's error.
abbrev pub connect_error : Reply → Reply → ℕ
connect_error (done result) option = 0
connect_error (failed errno) option = if errno == einprogress then pending option else errno

-- A failed call sets an errno other than 0.
abbrev pub IsProper : Reply → Type 0
IsProper (done result) = Unit
IsProper (failed errno) = (errno == 0) ≡ false

-- What async_connect promises: it succeeds if the connection has no error, and otherwise errno is
-- that error; it waits at most once, for the socket to be writable.
abbrev pub Connected : (socket address length error : ℕ) → Io → Option ℕ → Io → Type 0
Connected socket address length error io v g =
    (((error ≡ 0) × (v ≡ some 0)) ⊎ (((error == 0) ≡ false) × (v ≡ none) × (g.errno ≡ error)))
    × ((g.calls ≡ connect socket address length ∷ io.calls)
        ⊎ (g.calls
            ≡ getsockopt socket
              ∷ event_wait socket waitout
              ∷ connect socket address length
              ∷ io.calls))

-- async_connect succeeds exactly if the connection has no error, at once or after a connect in
-- progress; if it fails, errno is that error. It waits at most once, for the socket to be writable.
pub async_connect_lem :
    (socket address length : ℕ) (reply option : Reply) (io : Io)
    → IsProper reply
    → Returns
        (Connected socket address length (connect_error reply option) io)
        (async_connect socket address length reply option io)
unfolding async_connect
async_connect_lem socket address length (done result) option io p =
    returns (inl (refl, refl), inl refl)
async_connect_lem socket address length (failed errno) (done error) io p =
    elim (Bool-cases (errno == einprogress)) [
      | inr other ↦ rw other (returns (inr (ground (arith, p), refl, ground arith), inl refl))
      | inl progress ↦ elim (Bool-cases (error == 0)) [
        | inl clear ↦ rw (progress, clear) (returns (inl (ground arith, refl), inr refl))
        | inr pends ↦
            rw (progress, pends) (returns (inr (ground arith, refl, ground arith), inr refl))
      ]
    ]
async_connect_lem socket address length (failed errno) (failed error) io p =
    elim (Bool-cases (errno == einprogress)) [
      | inr other ↦ rw other (returns (inr (ground (arith, p), refl, ground arith), inl refl))
      | inl progress ↦ elim (Bool-cases (error == 0)) [
        | inl clear ↦ rw (progress, clear) (returns (inl (ground arith, refl), inr refl))
        | inr pends ↦
            rw (progress, pends) (returns (inr (ground arith, refl, ground arith), inr refl))
      ]
    ]
