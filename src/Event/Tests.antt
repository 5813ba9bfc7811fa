-- ===== src/Event/Tests.antt =====
-- Reads and writes that block, on concrete answers of the kernel.
use shproject.Prelude.{ℕ, ◌≡◌, refl, none, some, [], ◌∷◌, if◌then◌else◌, ◌==◌, arith}
use shproject.Prelude.Int.{ℤ, pos}
use shproject.Prelude.Outcome.{Prog, ok, ◌>>◌}
use shproject.Async.{done, failed, would_block}
use shproject.Event.{wait_accept, Waiter, Net}
use shproject.Event.Calls.{async_send}
use shproject.Event.Write.{
  part_answers, write_events, writing, begun, Written, async_send-completes,
}

-- A program with one callback, which does nothing.
abbrev Quiet : Type 0
Quiet = Net (Unit {0}) (Unit {0})

abbrev nothing : Unit {0} → ℕ → ℤ → Prog Quiet (Unit {0})
nothing cb p result n = ok tt n

abbrev waiter : Waiter (Unit {0})
waiter = record {
  epoll_fd = 3;
  wait_type = wait_accept;
  cb = tt;
  fd = 5;
  buffer = 0;
  length = 0;
  num_written = 0;
  flags = 0;
}

abbrev reader : Quiet
reader = record {
  waiters = λ q. if q == 64 then some waiter else none;
  app = tt;
  replies = failed 11 ∷ done 0 ∷ done 0 ∷ done 7 ∷ [];
  calls = [];
  fresh = [];
}

abbrev writer : Quiet
writer = record reader {
  replies = failed 11 ∷ done 0 ∷ part_answers (4 ∷ 2 ∷ []) (done 0 ∷ done 3 ∷ []);
}

async_send-completes_example :
    (g : Quiet) × ((async_send nothing 64 4096 9 0 tt >> write_events nothing 64 4 (4 ∷ 2 ∷ []))
        writer
      ≡ nothing tt 64 (pos 3) g)
    × Written nothing 64 4 refl refl
        (begun nothing 64 4 refl refl writer waiter 4096 9 0 tt
          (part_answers (4 ∷ 2 ∷ []) (done 0 ∷ done 3 ∷ [])))
        (writing nothing 64 4 refl refl waiter 4096 9 0 tt)
        (4 ∷ 2 ∷ [])
        3
        []
        g
unfolding would_block
async_send-completes_example =
    async_send-completes nothing 64 4 refl refl writer waiter 4096 9 0 11 tt (4 ∷ 2 ∷ []) 3 [] refl
      refl refl (omega arith) refl
