-- ===== src/Context/Create.antt =====
-- A new context, up to where it starts, and the switch to another one.
use native.Mathlib.Nat.{add-zero}
use shproject.Prelude.{ℕ, ◌+◌, ◌-◌, ◌%◌, ◌≤◌, ◌<◌, ◌≡◌, refl, ◌∙◌, ap, false, ◌⊎◌, arith, ◌==◌}
use shproject.Prelude.Outcome.{ok}
use shproject.Heap.{update}
use shproject.Context.{two_64, Cpu, _context_create, context_restore}
use shproject.Context.Restore.{IsOutside, restore_lem}

-- The memory when _context_create returns.
abbrev created : ℕ → ℕ → ℕ → (ℕ → ℕ) → (ℕ → ℕ)
created context fn top m =
    update (update (update m (context + 56) fn) (top - 16) 132) (context + 16) (top - 16)

create_raw :
    (s : Cpu)
    → 16 ≤ s.rdx
    → s.rdx < two_64
    → _context_create s
      ≡ ok (created s.rdi s.rsi s.rdx s.mem s.rsp) (record s {
        rdx = s.rdx - 16;
        rsp = (s.rsp + 8) % two_64;
        mem = created s.rdi s.rsi s.rdx s.mem;
      })
unfolding _context_create
create_raw s low high =
    let e : (s.rdx + two_64 - 16) % two_64 ≡ s.rdx - 16 = omega arith in simp (add-zero, e) refl

-- The stack below `top` and the context are apart.
abbrev pub IsApart : ℕ → ℕ → Type 0
IsApart c top = (top ≤ c) ⊎ (c + 80 ≤ top)

-- What _context_create leaves, for a stack that ends at `top` and a function `fn`.
pub record Created (s g : Cpu) : Type 0 where
  pub stack : g.mem (s.rdi + 16) ≡ s.rdx - 16
  pub start : g.mem (s.rdi + 56) ≡ s.rsi
  pub below : g.mem (s.rdx - 16) ≡ 132
  pub above : g.mem (s.rdx - 8) ≡ s.mem (s.rdx - 8)

-- Where `fn` starts: with 16 bytes of alignment as a call leaves it, and a return address that was never
-- written.
pub record Started (s t h : Cpu) : Type 0 where
  pub result : h.rax ≡ 1
  pub stack : h.rsp ≡ s.rdx - 8
  pub aligned : (h.rsp + 8) % 16 ≡ s.rdx % 16
  pub return_address : h.mem h.rsp ≡ t.mem (s.rdx - 8)

create_lem :
    (s : Cpu)
    → 16 ≤ s.rdx
    → s.rdx < two_64
    → IsApart s.rdi s.rdx
    → IsOutside s.rdi s.rsp
    → (s.rsp == s.rdx - 16) ≡ false
    → (g : Cpu) × (_context_create s ≡ ok (s.mem s.rsp) g) × Created s g
create_lem s low high apart out other =
    let g : Cpu = record s {
      rdx = s.rdx - 16;
      rsp = (s.rsp + 8) % two_64;
      mem = created s.rdi s.rsi s.rdx s.mem;
    } in
    let back : created s.rdi s.rsi s.rdx s.mem s.rsp ≡ s.mem s.rsp = ground arith in
    (
      g,
      create_raw s low high ∙ ap (λ a. ok a g) back,
      record {
        stack = ground arith;
        start = ground arith;
        below = ground arith;
        above = ground arith;
      },
    )

start_lem :
    (s t : Cpu)
    → 16 ≤ s.rdx
    → s.rdx < two_64
    → t.mem (t.rdi + 16) ≡ s.rdx - 16
    → t.mem (t.rdi + 56) ≡ s.rsi
    → (h : Cpu) × (context_restore t ≡ ok s.rsi h) × Started s t h
start_lem s t low high e e' =
    let top : (s.rdx - 16 + 8) % two_64 ≡ s.rdx - 8 = omega arith in
    let (h, run, q) =
      restore_lem
        (record t {
          rbx = t.mem t.rdi;
          rbp = t.mem (t.rdi + 8);
          rsp = s.rdx - 16;
          r12 = t.mem (t.rdi + 24);
          r13 = t.mem (t.rdi + 32);
          r14 = t.mem (t.rdi + 40);
          r15 = t.mem (t.rdi + 48);
        })
        t s.rsi
        (record {
          w0 = refl;
          w8 = refl;
          w16 = e;
          w24 = refl;
          w32 = refl;
          w40 = refl;
          w48 = refl;
          w56 = e';
        }) in
    let at : h.rsp ≡ s.rdx - 8 = q.kept.rsp ∙ top in
    (
      h,
      run,
      record {
        result = q.result;
        stack = at;
        aligned = omega (arith, at);
        return_address = ap h.mem at ∙ q.others (s.rdx - 8) (ground arith);
      },
    )

-- A new context keeps its function and the end of its stack. When it is restored, the function starts
-- at the end of the stack, aligned as after a call; the word that is its return address was written
-- neither by _context_create nor by context_restore.
pub _context_create-context_restore :
    (s t : Cpu)
    → 16 ≤ s.rdx
    → s.rdx < two_64
    → IsApart s.rdi s.rdx
    → IsOutside s.rdi s.rsp
    → (s.rsp == s.rdx - 16) ≡ false
    → t.mem (t.rdi + 16) ≡ s.rdx - 16
    → t.mem (t.rdi + 56) ≡ s.rsi
    → ((g : Cpu) × (_context_create s ≡ ok (s.mem s.rsp) g) × Created s g)
      × ((h : Cpu) × (context_restore t ≡ ok s.rsi h) × Started s t h)
_context_create-context_restore s t low high apart out other e e' =
    (create_lem s low high apart out other, start_lem s t low high e e')
