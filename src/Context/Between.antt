-- ===== src/Context/Between.antt =====
-- A switch from the context `from` to the one at `to`.
use shproject.Prelude.{ℕ, ◌+◌, ◌%◌, ◌≤◌, ◌<◌, ◌≡◌, refl, subst, ◌∙◌, false, ◌⊎◌, arith, ◌==◌}
use shproject.Prelude.Outcome.{Prog, ok}
use shproject.Context.{two_64, Cpu, context_save, context_restore}
use shproject.Context.Restore.{IsOutside, SameSaved, Holds, Saved, Resumed, save_lem, restore_lem}
use shproject.Context.Switch.{Process, args, on_cpu, context_switch}

Holds-cong :
    (c : ℕ) (s : Cpu) (pc : ℕ) (m n : ℕ → ℕ)
    → ((a : ℕ) → c ≤ a → a + 8 ≤ c + 64 → n a ≡ m a)
    → Holds c s pc m
    → Holds c s pc n
Holds-cong c s pc m n same v = record {
  w0 = same c (omega arith) (omega arith) ∙ v.w0;
  w8 = same (c + 8) (omega arith) (omega arith) ∙ v.w8;
  w16 = same (c + 16) (omega arith) (omega arith) ∙ v.w16;
  w24 = same (c + 24) (omega arith) (omega arith) ∙ v.w24;
  w32 = same (c + 32) (omega arith) (omega arith) ∙ v.w32;
  w40 = same (c + 40) (omega arith) (omega arith) ∙ v.w40;
  w48 = same (c + 48) (omega arith) (omega arith) ∙ v.w48;
  w56 = same (c + 56) (omega arith) (omega arith) ∙ v.w56;
}

on_cpu_run :
    (f : Prog Cpu ℕ) (call : Cpu → Cpu) (p : Process) (pc : ℕ) (g : Cpu)
    → f (call p.cpu) ≡ ok pc g
    → on_cpu f call p ≡ ok pc (record p { cpu = g })
unfolding on_cpu
on_cpu_run f call p pc g run = rw (on_cpu, run) refl

switch_run :
    (from to back back' : ℕ) (p : Process) (at pc : ℕ) (g h : Cpu)
    → context_save (args from 0 0 back p.cpu) ≡ ok at g
    → g.rax ≡ 0
    → context_restore (args to 0 0 back' g) ≡ ok pc h
    → context_switch from to back back' p ≡ ok pc (record p { cpu = h })
unfolding context_switch
switch_run from to back back' p at pc g h save zero restore =
    let first = on_cpu_run context_save (args from 0 0 back) p at g save in
    let second =
      on_cpu_run context_restore (args to 0 0 back') (record p { cpu = g }) pc h restore in
    simp (first, zero) second

-- The caller is saved, to go on at `back`, and the registers are those of `s'`.
pub record Left (p : Process) (from back : ℕ) (s' : Cpu) (g : Process) : Type 0 where
  pub result : g.cpu.rax ≡ 1
  pub registers : SameSaved g.cpu (record s' { rsp = (s'.rsp + 8) % two_64 })
  pub saved : Holds from (args from 0 0 back p.cpu) back g.cpu.mem
  pub stacks : g.stacks ≡ p.stacks
  pub live : g.live ≡ p.live

module _ (p : Process) (from to back back' pc : ℕ) (s' : Cpu) (sp : ℕ) (pushed : sp + 8 ≡ p.cpu.rsp)
    (high : p.cpu.rsp < two_64) (out : IsOutside from sp) (out' : IsOutside to sp)
    (apart : (from + 64 ≤ to) ⊎ (to + 64 ≤ from)) (other : IsOutside from s'.rsp)
    (held : Holds to s' pc p.cpu.mem) where
  -- The call of context_save, and what follows it up to that of context_restore.
  abbrev called : Cpu
  called = args from 0 0 back p.cpu

  called-rsp : called.rsp ≡ sp
  called-rsp = omega (arith, pushed, high)

  called-back : called.mem called.rsp ≡ back
  called-back = ground arith

  -- The call of context_restore writes the same word of the stack.
  second : (g : Cpu) → Saved called g → (args to 0 0 back' g).rsp ≡ sp
  second g q = omega (arith, q.kept.rsp, called-rsp, pushed, high)

  second-mem :
      (g : Cpu)
      → Saved called g
      → (a : ℕ) → (a == sp) ≡ false
      → (args to 0 0 back' g).mem a ≡ g.mem a
  second-mem g q a apart = ground (arith, second g q)

  -- What it restores is as it was.
  target : (g : Cpu) → Saved called g → Holds to s' pc (args to 0 0 back' g).mem
  target g q =
      Holds-cong to s' pc p.cpu.mem (args to 0 0 back' g).mem
        (λ a low high.
          second-mem g q a (ground arith) ∙ q.others a (ground arith) ∙ ground (arith, called-rsp))
        held

  -- What was saved stays.
  kept :
      (g h : Cpu)
      → Saved called g
      → Resumed s' (args to 0 0 back' g) h
      → Holds from called back h.mem
  kept g h q r =
      Holds-cong from called back g.mem h.mem
        (λ a low high. r.others a (ground arith) ∙ second-mem g q a (ground arith))
        (subst (λ pc. Holds from called pc g.mem) called-back q.holds)

  -- A switch saves the caller, which will go on at `back`, and goes to where the other context was
  -- saved, with its registers: where the two contexts are apart from each other and from the words of
  -- the two stacks that the calls write.
  pub context_switch_lem :
      (g : Process) × (context_switch from to back back' p ≡ ok pc g) × Left p from back s' g
  context_switch_lem =
      let (g, save, q) = save_lem called (rw called-rsp out) in
      let (h, restore, r) = restore_lem s' (args to 0 0 back' g) pc (target g q) in
      (
        record p { cpu = h },
        switch_run from to back back' p (called.mem called.rsp) pc g h save q.result restore,
        record {
          result = r.result;
          registers = r.kept;
          saved = kept g h q r;
          stacks = refl;
          live = refl;
        },
      )
