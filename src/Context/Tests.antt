-- ===== src/Context/Tests.antt =====
-- Contexts that are saved, created and restored, at concrete addresses.
use shproject.Prelude.{ℕ, ◌+◌, ◌≡◌, refl, ◌≢◌, inr, arith, ◌⊎◌, false, none, ◌==◌, if◌then◌else◌}
use shproject.Prelude.Outcome.{ok}
use shproject.Context.{
  low, Cpu, _context_create, context_save, context_restore, context_cmpxchg_restore,
}
use shproject.Context.Restore.{Holds, Saved, Resumed, context_save-context_restore}
use shproject.Context.Exchange.{Switched, Refused, context_cmpxchg_restore_lem}
use shproject.Context.Create.{Created, Started, _context_create-context_restore}
use shproject.Context.Switch.{Process, context_switch}
use shproject.Context.Between.{Left, context_switch_lem}

-- The word at each address, and a processor with its stack at 4096.
abbrev memory : ℕ → ℕ
memory a = 5 + a

abbrev processor : ℕ → ℕ → ℕ → ℕ → (ℕ → ℕ) → Cpu
processor rdi rsi rdx rcx m = record {
  rax = 0;
  rbx = 11;
  rcx = rcx;
  rdx = rdx;
  rsi = rsi;
  rdi = rdi;
  rbp = 12;
  rsp = 4096;
  r12 = 13;
  r13 = 14;
  r14 = 15;
  r15 = 16;
  zf = false;
  mem = m;
}

-- A context at 256, as context_save leaves it.
abbrev context : ℕ → ℕ
context a =
    if a == 256
    then 11
    else if a == 264
    then 12
    else if a == 272
    then 4096
    else if a == 280
    then 13
    else if a == 288
    then 14
    else if a == 296
    then 15
    else if a == 304
    then 16
    else if a == 312
    then 4101
    else 5 + a

abbrev caller : Cpu
caller = processor 256 0 0 0 memory

abbrev resumer : Cpu
resumer = record (processor 256 0 0 0 context) { rsp = 8192; rbx = 1; r12 = 2 }

abbrev holds : Holds 256 caller 4101 context
holds = record {
  w0 = refl;
  w8 = refl;
  w16 = refl;
  w24 = refl;
  w32 = refl;
  w40 = refl;
  w48 = refl;
  w56 = refl;
}

context_save-context_restore_example :
    ((g : Cpu) × (context_save caller ≡ ok 4101 g) × Saved caller g)
    × ((h : Cpu) × (context_restore resumer ≡ ok 4101 h) × Resumed caller resumer h)
context_save-context_restore_example =
    context_save-context_restore caller resumer (inr (omega arith)) refl holds

-- The state of a coroutine at 1024, which is 1029, from which the exchange goes to 7.
abbrev suspended : Cpu
suspended = processor 256 1024 1029 7 context

context_cmpxchg_restore_lem_example :
    ((low (suspended.mem 1024) ≡ low 1029)
      × ((h : Cpu) × (context_cmpxchg_restore suspended ≡ ok 4101 h) × Switched suspended caller h))
    ⊎ ((low (suspended.mem 1024) ≢ low 1029)
        × ((h : Cpu) × (context_cmpxchg_restore suspended ≡ ok (suspended.mem 4096) h)
            × Refused suspended h))
context_cmpxchg_restore_lem_example =
    context_cmpxchg_restore_lem suspended caller 4101 (inr (omega arith)) holds

-- A function at 77 on a stack that ends at 9000, and the context restored.
abbrev creator : Cpu
creator = processor 256 77 9000 0 memory

abbrev fresh : ℕ → ℕ
fresh a = if a == 272 then 8984 else if a == 312 then 77 else 5 + a

abbrev starter : Cpu
starter = processor 256 0 0 0 fresh

_context_create-context_restore_example :
    ((g : Cpu) × (_context_create creator ≡ ok 4101 g) × Created creator g)
    × ((h : Cpu) × (context_restore starter ≡ ok 77 h) × Started creator starter h)
_context_create-context_restore_example =
    _context_create-context_restore creator starter (omega arith) (omega arith) (inr (omega arith))
      (inr (omega arith)) refl refl refl

abbrev process : Process
process = record { cpu = processor 0 0 0 0 context; stacks = λ c. none; live = λ a. false }

context_switch_lem_example :
    (g : Process) × (context_switch 512 256 40 41 process ≡ ok 4101 g)
    × Left process 512 40 caller g
context_switch_lem_example =
    context_switch_lem process 512 256 40 41 4101 caller 4088 refl (omega arith) (inr (omega arith))
      (inr (omega arith)) (inr (omega arith)) (inr (omega arith)) holds
