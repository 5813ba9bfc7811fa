-- ===== src/Context.antt =====
-- arch/context_gcc_amd64.S: contexts, saved and restored by assembly.
-- The instructions are data, as the file has them, and `run` is what the processor does with them. An
-- address is that of an aligned word of 8 bytes; no address that is computed wraps around.
pub mod Restore
pub mod Exchange
pub mod Switch
pub mod Create
pub mod Between
mod Tests
use shproject.Prelude.{
  ℕ, ◌+◌, ◌-◌, ◌*◌, ◌/◌, ◌%◌, Bool, true, false, List, [], ◌∷◌, ◌==◌, if◌then◌else◌,
}
use shproject.Prelude.Outcome.{Prog, ok, fault}
use shproject.Heap.{update}

abbrev pub two_32 : ℕ
two_32 = 0x1_0000_0000

abbrev pub two_64 : ℕ
two_64 = 0x1_0000_0000_0000_0000

pub data Reg : Type 0 where
  rax rbx rcx rdx rsi rdi rbp rsp r12 r13 r14 r15 : Reg

-- The registers, the zero flag and the memory.
pub record Cpu : Type 0 where
  pub rax : ℕ
  pub rbx : ℕ
  pub rcx : ℕ
  pub rdx : ℕ
  pub rsi : ℕ
  pub rdi : ℕ
  pub rbp : ℕ
  pub rsp : ℕ
  pub r12 : ℕ
  pub r13 : ℕ
  pub r14 : ℕ
  pub r15 : ℕ
  pub zf : Bool
  pub mem : ℕ → ℕ

abbrev pub get : Reg → Cpu → ℕ
get Reg.rax s = s.rax
get Reg.rbx s = s.rbx
get Reg.rcx s = s.rcx
get Reg.rdx s = s.rdx
get Reg.rsi s = s.rsi
get Reg.rdi s = s.rdi
get Reg.rbp s = s.rbp
get Reg.rsp s = s.rsp
get Reg.r12 s = s.r12
get Reg.r13 s = s.r13
get Reg.r14 s = s.r14
get Reg.r15 s = s.r15

abbrev pub put : Reg → ℕ → Cpu → Cpu
put Reg.rax v s = record s { rax = v }
put Reg.rbx v s = record s { rbx = v }
put Reg.rcx v s = record s { rcx = v }
put Reg.rdx v s = record s { rdx = v }
put Reg.rsi v s = record s { rsi = v }
put Reg.rdi v s = record s { rdi = v }
put Reg.rbp v s = record s { rbp = v }
put Reg.rsp v s = record s { rsp = v }
put Reg.r12 v s = record s { r12 = v }
put Reg.r13 v s = record s { r13 = v }
put Reg.r14 v s = record s { r14 = v }
put Reg.r15 v s = record s { r15 = v }

abbrev pub store : ℕ → ℕ → Cpu → Cpu
store address v s = record s { mem = update s.mem address v }

-- `movq %src, offset(%base)`, `movq offset(%base), %dst`, `movq $imm, offset(%base)`,
-- `subq $imm, %dst`, `movl %src, %dst`, `movl $imm, %dst`, `xorl %dst, %dst`,
-- `lock cmpxchg %src, 0(%base)` on 4 bytes, and `jz` to the label of the file.
pub data Instr : Type 0 where
  movq_store : (src : Reg) (offset : ℕ) (base : Reg) → Instr
  movq_load : (offset : ℕ) (base dst : Reg) → Instr
  movq_store_imm : (imm offset : ℕ) (base : Reg) → Instr
  subq_imm : (imm : ℕ) (dst : Reg) → Instr
  movl : (src dst : Reg) → Instr
  movl_imm : (imm : ℕ) (dst : Reg) → Instr
  xorl_self : (dst : Reg) → Instr
  cmpxchgl : (src base : Reg) → Instr
  jz ret : Instr

-- The low 4 bytes of a word, and the word with other ones.
abbrev pub low : ℕ → ℕ
low w = w % two_32

abbrev pub with_low : ℕ → ℕ → ℕ
with_low w v = w / two_32 * two_32 + low v

-- `cmpxchg` compares with %eax; it loads %eax where they differ.
abbrev pub exchange : ℕ → ℕ → Cpu → Cpu
exchange address v s =
    if low (s.mem address) == low s.rax
    then record s { zf = true; mem = update s.mem address (with_low (s.mem address) v) }
    else record s { zf = false; rax = low (s.mem address) }

-- The code from here on; `jump` is that from the label on. The result is where `ret` goes.
unfoldable pub run : Prog Cpu ℕ → List Instr → Prog Cpu ℕ
run jump [] s = fault
run jump (movq_store src offset base ∷ code) s =
    run jump code (store (get base s + offset) (get src s) s)
run jump (movq_load offset base dst ∷ code) s =
    run jump code (put dst (s.mem (get base s + offset)) s)
run jump (movq_store_imm imm offset base ∷ code) s =
    run jump code (store (get base s + offset) imm s)
run jump (subq_imm imm dst ∷ code) s =
    run jump code (put dst ((get dst s + two_64 - imm) % two_64) s)
run jump (movl src dst ∷ code) s = run jump code (put dst (low (get src s)) s)
run jump (movl_imm imm dst ∷ code) s = run jump code (put dst imm s)
run jump (xorl_self dst ∷ code) s = run jump code (put dst 0 s)
run jump (cmpxchgl src base ∷ code) s = run jump code (exchange (get base s) (get src s) s)
run jump (jz ∷ code) s = let rest = run jump code s in if s.zf then jump s else rest
run jump (ret ∷ code) s = ok (s.mem s.rsp) (record s { rsp = (s.rsp + 8) % two_64 })

abbrev no_label : Prog Cpu ℕ
no_label s = fault

abbrev create_code : List Instr
create_code =
    movq_store Reg.rsi 56 Reg.rdi
    ∷ subq_imm 16 Reg.rdx
    ∷ movq_store_imm 132 0 Reg.rdx
    ∷ movq_store Reg.rdx 16 Reg.rdi
    ∷ ret
    ∷ []

unfoldable pub _context_create : Prog Cpu ℕ
unfolding run
_context_create = run no_label create_code

abbrev save_code : List Instr
save_code =
    movq_store Reg.rbx 0 Reg.rdi
    ∷ movq_store Reg.rbp 8 Reg.rdi
    ∷ movq_store Reg.rsp 16 Reg.rdi
    ∷ movq_store Reg.r12 24 Reg.rdi
    ∷ movq_store Reg.r13 32 Reg.rdi
    ∷ movq_store Reg.r14 40 Reg.rdi
    ∷ movq_store Reg.r15 48 Reg.rdi
    ∷ movq_load 0 Reg.rsp Reg.rax
    ∷ movq_store Reg.rax 56 Reg.rdi
    ∷ xorl_self Reg.rax
    ∷ ret
    ∷ []

unfoldable pub context_save : Prog Cpu ℕ
unfolding run
context_save = run no_label save_code

-- From `.local_restore` on.
abbrev restore_code : List Instr
restore_code =
    movq_load 0 Reg.rdi Reg.rbx
    ∷ movq_load 8 Reg.rdi Reg.rbp
    ∷ movq_load 16 Reg.rdi Reg.rsp
    ∷ movq_load 24 Reg.rdi Reg.r12
    ∷ movq_load 32 Reg.rdi Reg.r13
    ∷ movq_load 40 Reg.rdi Reg.r14
    ∷ movq_load 48 Reg.rdi Reg.r15
    ∷ movq_load 56 Reg.rdi Reg.rax
    ∷ movq_store Reg.rax 0 Reg.rsp
    ∷ movl_imm 1 Reg.rax
    ∷ ret
    ∷ []

unfoldable pub context_restore : Prog Cpu ℕ
unfolding run
context_restore = run no_label restore_code

abbrev cmpxchg_code : List Instr
cmpxchg_code = movl Reg.rdx Reg.rax ∷ cmpxchgl Reg.rcx Reg.rsi ∷ jz ∷ ret ∷ []

unfoldable pub context_cmpxchg_restore : Prog Cpu ℕ
unfolding run context_restore
context_cmpxchg_restore = run context_restore cmpxchg_code
