-- ===== src/Context/Switch.antt =====
-- context.h: contexts on their stacks, over the assembly. malloc's answer is an argument.
use shproject.Prelude.{ℕ, ◌+◌, ◌-◌, ◌%◌, Bool, true, false, Option, none, some, ◌==◌, if◌then◌else◌}
use shproject.Prelude.Outcome.{Prog, ok, fault, abort, out_of_fuel, pure, ◌>>=◌, ◌>>◌}
use shproject.Heap.{update}
use shproject.Context.{two_64, Cpu, _context_create, context_save, context_restore}

-- `stack` and `stack_size` of a `struct context`, whose registers are in the memory at its address.
pub record Stack : Type 0 where
  pub stack : ℕ
  pub stack_size : ℕ

-- The state of the processor, the stack of each context, and the blocks that malloc gave.
pub record Process : Type 0 where
  pub cpu : Cpu
  pub stacks : ℕ → Option Stack
  pub live : ℕ → Bool

-- A call with up to three arguments; `back` is its return address.
abbrev pub args : ℕ → ℕ → ℕ → ℕ → Cpu → Cpu
args a b c back s = record s {
  rdi = a;
  rsi = b;
  rdx = c;
  rsp = (s.rsp + two_64 - 8) % two_64;
  mem = update s.mem ((s.rsp + two_64 - 8) % two_64) back;
}

-- A call of a function of the assembly; the result is where it goes.
unfoldable pub on_cpu : Prog Cpu ℕ → (Cpu → Cpu) → Prog Process ℕ
on_cpu f call p = elim (f (call p.cpu)) [
  | ok pc g ↦ ok pc (record p { cpu = g })
  | fault ↦ fault
  | abort ↦ abort
  | out_of_fuel ↦ out_of_fuel
]

unfoldable pub context_create : Option ℕ → ℕ → ℕ → ℕ → ℕ → Prog Process ℕ
context_create none context fn stack_size back = λ p. abort
context_create (some stack) context fn stack_size back = do
  λ p. ok tt (record p {
    stacks = update p.stacks context (some (record { stack = stack; stack_size = stack_size }));
    live = update p.live stack true;
  })
  on_cpu _context_create (args context fn (stack + stack_size) back)

-- `back` is where the call of context_save stands in the caller, `back'` that of context_restore.
unfoldable pub context_switch : ℕ → ℕ → ℕ → ℕ → Prog Process ℕ
context_switch from to back back' = do
  pc ← on_cpu context_save (args from 0 0 back)
  λ p. if p.cpu.rax == 0 then on_cpu context_restore (args to 0 0 back') p else ok pc p

unfoldable context_empty : ℕ → Prog Process (Unit {0})
context_empty context = pure tt

-- free, of a block that malloc gave and that was not freed since.
unfoldable pub context_free : ℕ → Prog Process (Unit {0})
context_free context p = elim (p.stacks context) [
  | none ↦ fault
  | some s ↦
      if p.live s.stack then ok tt (record p { live = update p.live s.stack false }) else fault
]
