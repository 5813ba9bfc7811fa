-- ===== src/Context/Restore.antt =====
-- What a context keeps, from context_save, or from _context_create, to context_restore.
use native.Mathlib.Nat.{add-zero}
use shproject.Prelude.{ℕ, ◌+◌, ◌%◌, ◌≤◌, ◌≡◌, refl, sym, subst, ◌∙◌, ap, false, ◌⊎◌, arith, ◌==◌}
use shproject.Prelude.Outcome.{ok}
use shproject.Heap.{update}
use shproject.Context.{two_64, Cpu, context_save, context_restore}

-- The word at `a` is none of the context at `c`.
abbrev pub IsOutside : ℕ → ℕ → Type 0
IsOutside c a = (a + 8 ≤ c) ⊎ (c + 64 ≤ a)

-- The registers that a function keeps for its caller.
pub record SameSaved (s t : Cpu) : Type 0 where
  pub rbx : s.rbx ≡ t.rbx
  pub rbp : s.rbp ≡ t.rbp
  pub rsp : s.rsp ≡ t.rsp
  pub r12 : s.r12 ≡ t.r12
  pub r13 : s.r13 ≡ t.r13
  pub r14 : s.r14 ≡ t.r14
  pub r15 : s.r15 ≡ t.r15

-- The words of a context hold the registers of `s` and the address `pc`.
pub record Holds (c : ℕ) (s : Cpu) (pc : ℕ) (m : ℕ → ℕ) : Type 0 where
  pub w0 : m c ≡ s.rbx
  pub w8 : m (c + 8) ≡ s.rbp
  pub w16 : m (c + 16) ≡ s.rsp
  pub w24 : m (c + 24) ≡ s.r12
  pub w32 : m (c + 32) ≡ s.r13
  pub w40 : m (c + 40) ≡ s.r14
  pub w48 : m (c + 48) ≡ s.r15
  pub w56 : m (c + 56) ≡ pc

abbrev words : Cpu → ℕ → ℕ
words s =
    update
      (update
        (update
          (update (update (update (update s.mem s.rdi s.rbx) (s.rdi + 8) s.rbp) (s.rdi + 16) s.rsp)
            (s.rdi + 24) s.r12)
          (s.rdi + 32) s.r13)
        (s.rdi + 40) s.r14)
      (s.rdi + 48) s.r15

-- The state when `v` was read as the return address.
abbrev saved_with : Cpu → ℕ → Cpu
saved_with s v = record s {
  rax = 0;
  rsp = (s.rsp + 8) % two_64;
  mem = update (words s) (s.rdi + 56) v;
}

abbrev saved : Cpu → Cpu
saved s = saved_with s (s.mem s.rsp)

update-same : (f : ℕ → ℕ) (a v : ℕ) → update f a v a ≡ v
update-same f a v = ground arith

words-others : (s : Cpu) (a : ℕ) → IsOutside s.rdi a → words s a ≡ s.mem a
words-others s a out = ground arith

saved-Holds : (s : Cpu) → Holds s.rdi s (s.mem s.rsp) (saved s).mem
saved-Holds s = record {
  w0 = ground arith;
  w8 = ground arith;
  w16 = ground arith;
  w24 = ground arith;
  w32 = ground arith;
  w40 = ground arith;
  w48 = ground arith;
  w56 = ground arith;
}

saved-others : (s : Cpu) (a : ℕ) → IsOutside s.rdi a → (saved s).mem a ≡ s.mem a
saved-others s a out = ground arith

save_raw :
    (s : Cpu)
    → context_save s ≡ ok ((saved_with s (words s s.rsp)).mem s.rsp) (saved_with s (words s s.rsp))
unfolding context_save
save_raw s = simp add-zero refl

save_run : (s : Cpu) → IsOutside s.rdi s.rsp → context_save s ≡ ok (s.mem s.rsp) (saved s)
save_run s out =
    save_raw s
    ∙ ap (λ v. ok ((saved_with s v).mem s.rsp) (saved_with s v)) (words-others s s.rsp out)
    ∙ ap (λ pc. ok pc (saved s)) (saved-others s s.rsp out)

abbrev restored : Cpu → Cpu
restored t = record t {
  rbx = t.mem t.rdi;
  rbp = t.mem (t.rdi + 8);
  rsp = (t.mem (t.rdi + 16) + 8) % two_64;
  r12 = t.mem (t.rdi + 24);
  r13 = t.mem (t.rdi + 32);
  r14 = t.mem (t.rdi + 40);
  r15 = t.mem (t.rdi + 48);
  rax = 1;
  mem = update t.mem (t.mem (t.rdi + 16)) (t.mem (t.rdi + 56));
}

-- context_restore goes to the address that the context holds.
restore_run : (t : Cpu) → context_restore t ≡ ok (t.mem (t.rdi + 56)) (restored t)
unfolding context_restore
restore_run t =
    let here = update-same t.mem (t.mem (t.rdi + 16)) (t.mem (t.rdi + 56)) in
    simp (add-zero, here) refl

-- What context_save leaves: the result 0, the caller's registers, and a context that holds them.
pub record Saved (s g : Cpu) : Type 0 where
  pub result : g.rax ≡ 0
  pub kept : SameSaved g (record s { rsp = (s.rsp + 8) % two_64 })
  pub holds : Holds s.rdi s (s.mem s.rsp) g.mem
  pub others : (a : ℕ) → IsOutside s.rdi a → g.mem a ≡ s.mem a

-- What context_restore leaves, from `t`, of a context that `s` saved: the result 1 and the registers of
-- `s`, as if context_save had returned again. It writes to the word of the return address alone.
pub record Resumed (s t h : Cpu) : Type 0 where
  pub result : h.rax ≡ 1
  pub kept : SameSaved h (record s { rsp = (s.rsp + 8) % two_64 })
  pub others : (a : ℕ) → (a == s.rsp) ≡ false → h.mem a ≡ t.mem a

pub restore_lem :
    (s t : Cpu) (pc : ℕ)
    → Holds t.rdi s pc t.mem
    → (h : Cpu) × (context_restore t ≡ ok pc h) × Resumed s t h
restore_lem s t pc v = (
  restored t,
  restore_run t ∙ ap (λ a. ok a (restored t)) v.w56,
  record {
    result = refl;
    kept = record {
      rbx = v.w0;
      rbp = v.w8;
      rsp = ap (λ a. (a + 8) % two_64) v.w16;
      r12 = v.w24;
      r13 = v.w32;
      r14 = v.w40;
      r15 = v.w48;
    };
    others = λ a o. ground (arith, v.w16);
  },
)

pub save_lem :
    (s : Cpu)
    → IsOutside s.rdi s.rsp
    → (g : Cpu) × (context_save s ≡ ok (s.mem s.rsp) g) × Saved s g
save_lem s out = (
  saved s,
  save_run s out,
  record {
    result = refl;
    kept = record {
      rbx = refl;
      rbp = refl;
      rsp = refl;
      r12 = refl;
      r13 = refl;
      r14 = refl;
      r15 = refl;
    };
    holds = saved-Holds s;
    others = saved-others s;
  },
)

-- context_save returns 0 to its caller; context_restore, from any state in which the context is still
-- as it was left, returns 1 to the same place, with the registers that the caller had.
pub context_save-context_restore :
    (s t : Cpu)
    → IsOutside s.rdi s.rsp
    → t.rdi ≡ s.rdi
    → Holds s.rdi s (s.mem s.rsp) t.mem
    → ((g : Cpu) × (context_save s ≡ ok (s.mem s.rsp) g) × Saved s g)
      × ((h : Cpu) × (context_restore t ≡ ok (s.mem s.rsp) h) × Resumed s t h)
context_save-context_restore s t out same v = (
  save_lem s out,
  restore_lem s t (s.mem s.rsp) (subst (λ c. Holds c s (s.mem s.rsp) t.mem) (sym same) v),
)
