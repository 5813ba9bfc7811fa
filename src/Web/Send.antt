-- ===== src/Web/Send.antt =====
-- send_all to its end.
use shproject.Prelude.{
  ℕ, ◌+◌, ◌-◌, ◌≤◌, ◌≡◌, refl, true, Option, none, some, List, [], ◌∷◌, arith, ◌==◌, inl, inr,
  Bool-cases,
}
use shproject.Prelude.Int.{pos}
use shproject.Prelude.Outcome.{Returns, returns, Returns-mono}
use shproject.Web.{eintr, Sending, send_all}

-- The answers of async_send that write `size` bytes, between them interruptions.
abbrev pub IsWhole : List (Option ℕ × ℕ) → ℕ → Type 0
IsWhole [] size = size ≡ 0
IsWhole ((none, errno) ∷ answers) size = (errno ≡ eintr) × IsWhole answers size
IsWhole ((some sent, errno) ∷ answers) size = (sent ≤ size) × IsWhole answers (size - sent)

-- With answers that write the whole size, and between them interruptions, send_all returns 0, at the
-- end of the buffer.
pub send_all-completes :
    (answers : List (Option ℕ × ℕ)) (s : Sending)
    → IsWhole answers s.size
    → Returns (λ r g. (r ≡ pos 0) × (g.buf ≡ s.buf + s.size) × (g.size ≡ 0)) (send_all answers s)
unfolding send_all
send_all-completes [] s whole =
    let e : (s.size == 0) ≡ true = ground arith in rw e (returns (refl, ground arith, whole))
send_all-completes ((none, errno) ∷ answers) s whole = elim (Bool-cases (s.size == 0)) [
  | inl e ↦ rw e (returns (refl, ground arith, ground arith))
  | inr e ↦
      let i : (errno == eintr) ≡ true = ground arith in
      rw (e, i) (send_all-completes answers (record s { errno = errno }) whole.1)
]
send_all-completes ((some sent, errno) ∷ answers) s whole = elim (Bool-cases (s.size == 0)) [
  | inl e ↦ rw e (returns (refl, ground arith, ground arith))
  | inr e ↦ rw e (
      Returns-mono
        (send_all-completes answers (record s { buf = s.buf + sent; size = s.size - sent }) whole.1)
        (λ r g q. (q.0, ground arith, q.2)))
]
