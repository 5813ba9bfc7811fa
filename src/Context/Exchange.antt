-- ===== src/Context/Exchange.antt =====
-- context_cmpxchg_restore, the end of sched_suspend.
use shproject.Prelude.{
  ℕ, ◌+◌, ◌%◌, ◌≡◌, ◌≢◌, Bool-cases, refl, ◌∙◌, ap, true, false, ◌⊎◌, inl, inr, arith, ◌==◌,
}
use shproject.Prelude.Outcome.{ok}
use shproject.Heap.{update}
use shproject.Context.{two_64, low, with_low, Cpu, context_restore, context_cmpxchg_restore}
use shproject.Context.Restore.{IsOutside, SameSaved, Holds, restore_lem}

-- The state when the exchange was made.
abbrev exchanged : Cpu → Cpu
exchanged s = record s {
  rax = low s.rdx;
  zf = true;
  mem = update s.mem s.rsi (with_low (s.mem s.rsi) s.rcx);
}

-- The state when it was not, and the function has returned.
abbrev refused : Cpu → Cpu
refused s = record s { rax = low (s.mem s.rsi); zf = false; rsp = (s.rsp + 8) % two_64 }

low-low : (a : ℕ) → low (low a) ≡ low a
low-low a = omega arith

exchange_run :
    (s : Cpu)
    → (low (s.mem s.rsi) == low s.rdx) ≡ true
    → context_cmpxchg_restore s ≡ context_restore (exchanged s)
unfolding context_cmpxchg_restore
exchange_run s same = simp (low-low s.rdx, same) refl

refuse_run :
    (s : Cpu)
    → (low (s.mem s.rsi) == low s.rdx) ≡ false
    → context_cmpxchg_restore s ≡ ok (s.mem s.rsp) (refused s)
unfolding context_cmpxchg_restore
refuse_run s other = simp (low-low s.rdx, other) refl

exchanged-Holds :
    (c : ℕ) (s s' : Cpu) (pc : ℕ)
    → IsOutside c s.rsi
    → Holds c s' pc s.mem
    → Holds c s' pc (exchanged s).mem
exchanged-Holds c s s' pc out v = record {
  w0 = ground (arith, v.w0);
  w8 = ground (arith, v.w8);
  w16 = ground (arith, v.w16);
  w24 = ground (arith, v.w24);
  w32 = ground (arith, v.w32);
  w40 = ground (arith, v.w40);
  w48 = ground (arith, v.w48);
  w56 = ground (arith, v.w56);
}

-- Where the value is the old one, it becomes the new one, and the saved context of `s'` goes on; the
-- caller's stack is neither read nor written.
pub record Switched (s s' h : Cpu) : Type 0 where
  pub result : h.rax ≡ 1
  pub kept : SameSaved h (record s' { rsp = (s'.rsp + 8) % two_64 })
  pub value : (s.rsi == s'.rsp) ≡ false → low (h.mem s.rsi) ≡ low s.rcx
  pub others : (a : ℕ) → (a == s'.rsp) ≡ false → (a == s.rsi) ≡ false → h.mem a ≡ s.mem a

-- Otherwise the value is returned, and nothing changes.
pub record Refused (s h : Cpu) : Type 0 where
  pub result : h.rax ≡ low (s.mem s.rsi)
  pub kept : SameSaved h (record s { rsp = (s.rsp + 8) % two_64 })
  pub memory : h.mem ≡ s.mem

low-with_low : (w v : ℕ) → low (with_low w v) ≡ low v
low-with_low w v = omega arith

exchanged-value :
    (s h : Cpu) → h.mem s.rsi ≡ (exchanged s).mem s.rsi → low (h.mem s.rsi) ≡ low s.rcx
exchanged-value s h e =
    let here : (exchanged s).mem s.rsi ≡ with_low (s.mem s.rsi) s.rcx = ground arith in
    ap low (e ∙ here) ∙ low-with_low (s.mem s.rsi) s.rcx

-- context_cmpxchg_restore makes the exchange and restores the context, or does neither: exactly if
-- the value is the old one.
pub context_cmpxchg_restore_lem :
    (s s' : Cpu) (pc : ℕ)
    → IsOutside s.rdi s.rsi
    → Holds s.rdi s' pc s.mem
    → ((low (s.mem s.rsi) ≡ low s.rdx)
        × ((h : Cpu) × (context_cmpxchg_restore s ≡ ok pc h) × Switched s s' h))
      ⊎ ((low (s.mem s.rsi) ≢ low s.rdx)
          × ((h : Cpu) × (context_cmpxchg_restore s ≡ ok (s.mem s.rsp) h) × Refused s h))
context_cmpxchg_restore_lem s s' pc out v = elim (Bool-cases (low (s.mem s.rsi) == low s.rdx)) [
  | inl same ↦
      let (h, run, q) = restore_lem s' (exchanged s) pc (exchanged-Holds s.rdi s s' pc out v) in
      inl (
        ground arith,
        (
          h,
          exchange_run s same ∙ run,
          record {
            result = q.result;
            kept = q.kept;
            value = λ apart. exchanged-value s h (q.others s.rsi apart);
            others = λ a o o'. q.others a o ∙ ground arith;
          },
        ),
      )
  | inr other ↦ inr (
    (λ e. ground arith),
    (
      refused s,
      refuse_run s other,
      record {
        result = refl;
        kept = record {
          rbx = refl;
          rbp = refl;
          rsp = refl;
          r12 = refl;
          r13 = refl;
          r14 = refl;
          r15 = refl;
        };
        memory = refl;
      },
    ),
  )
]
