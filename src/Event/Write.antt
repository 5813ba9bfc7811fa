-- ===== src/Event/Write.antt =====
-- Writing: async_send that would block, and handle_write from event to event.
use shproject.Prelude.{
  ℕ, ◌+◌, ◌-◌, ◌<◌, ◌≡◌, refl, ◌∙◌, true, false, some, List, [], ◌∷◌, arith, ◌==◌,
}
use shproject.Prelude.Int.{ℤ, pos}
use shproject.Prelude.Outcome.{Prog, ok, ◌>>◌}
use shproject.Heap.{update}
use shproject.Async.{Reply, done, failed, would_block}
use shproject.Event.{
  wait_write, Waiter, Sys, send, Net, has_event, epollout, epollerr, handle_event,
}
use shproject.Event.Calls.{async_send}
use shproject.Event.Resume.{armed, disarmed}

abbrev pub sum : List ℕ → ℕ
sum [] = 0
sum (k ∷ ks) = k + sum ks

-- What the kernel answers in events that write `ks` bytes: to epoll_ctl, to send, to epoll_ctl.
abbrev pub part_answers : List ℕ → List Reply → List Reply
part_answers [] rest = rest
part_answers (k ∷ ks) rest = done 0 ∷ done k ∷ done 0 ∷ part_answers ks rest

abbrev pub rest_of : {C : Type 0} → Waiter C → Sys
rest_of w = send w.fd (w.buffer + w.num_written) (w.length - w.num_written) w.flags

abbrev pub advance : {C : Type 0} → Waiter C → ℕ → Waiter C
advance w k = record w { num_written = w.num_written + k }

-- The calls of these events: each asks send for all that is left, from where the one before ended.
abbrev pub part_calls : {C : Type 0} → ℕ → Waiter C → List ℕ → List Sys → List Sys
part_calls p w [] calls = calls
part_calls p w (k ∷ ks) calls =
    part_calls p (advance w k) ks (armed p w epollout ∷ rest_of w ∷ disarmed w ∷ calls)

module _ {C A : Type 0} (call : C → ℕ → ℤ → Prog (Net C A) (Unit {0})) (p revents : ℕ) where
  -- As many events as the list is long, and one more.
  abbrev pub write_events : List ℕ → Prog (Net C A) (Unit {0})
  write_events [] = handle_event call p revents
  write_events (k ∷ ks) = handle_event call p revents >> write_events ks

  module _ (calm : has_event revents epollerr ≡ false)
      (ready : has_event revents epollout ≡ true) where
    part_run :
        (n : Net C A) (w : Waiter C) (k : ℕ) (rest : List Reply)
        → n.waiters p ≡ some w
        → w.wait_type ≡ wait_write
        → (w.num_written + k == w.length) ≡ false
        → n.replies ≡ done 0 ∷ done k ∷ done 0 ∷ rest
        → handle_event call p revents n
          ≡ ok tt (record n {
            waiters = update n.waiters p (some (advance w k));
            replies = rest;
            calls = armed p w epollout ∷ rest_of w ∷ disarmed w ∷ n.calls;
          })
    unfolding handle_event
    part_run n w k rest found type more r = ground arith

    last_run :
        (n : Net C A) (w : Waiter C) (k : ℕ) (rest : List Reply)
        → n.waiters p ≡ some w
        → w.wait_type ≡ wait_write
        → (w.num_written + k == w.length) ≡ true
        → n.replies ≡ done 0 ∷ done k ∷ rest
        → handle_event call p revents n
          ≡ call w.cb p (pos k) (record n {
            waiters = update n.waiters p (some (advance w k));
            replies = rest;
            calls = rest_of w ∷ disarmed w ∷ n.calls;
          })
    unfolding handle_event
    last_run n w k rest found type all r = ground arith

    -- What the state is when the callback is called after the parts `ks` and `last`.
    pub record Written (n : Net C A) (w : Waiter C) (ks : List ℕ) (last : ℕ) (rest : List Reply)
        (g : Net C A) : Type 0 where
      pub waiter : g.waiters p ≡ some (record w { num_written = w.length })
      pub others : (q : ℕ) → (q == p) ≡ false → g.waiters q ≡ n.waiters q
      pub app : g.app ≡ n.app
      pub fresh : g.fresh ≡ n.fresh
      pub replies : g.replies ≡ rest
      pub calls :
          (v : Waiter C) × (v ≡ advance w (sum ks))
          × (g.calls ≡ rest_of v ∷ disarmed v ∷ part_calls p w ks n.calls)

    pub write_events_lem :
        (ks : List ℕ) (n : Net C A) (w : Waiter C) (last : ℕ) (rest : List Reply)
        → n.waiters p ≡ some w
        → w.wait_type ≡ wait_write
        → w.num_written + sum ks + last ≡ w.length
        → 0 < last
        → n.replies ≡ part_answers ks (done 0 ∷ done last ∷ rest)
        → (g : Net C A) × (write_events ks n ≡ call w.cb p (pos last) g)
          × Written n w ks last rest g
    write_events_lem [] n w last rest found type whole some_left r =
        let all : (w.num_written + last == w.length) ≡ true = ground arith in
        (
          _,
          last_run n w last rest found type all r,
          record {
            waiter = ground arith;
            others = λ q o. ground arith;
            app = refl;
            fresh = refl;
            replies = refl;
            calls = (w, ground arith, refl);
          },
        )
    write_events_lem (k ∷ ks) n w last rest found type whole some_left r =
        let more : (w.num_written + k == w.length) ≡ false = ground arith in
        let n' : Net C A = record n {
          waiters = update n.waiters p (some (advance w k));
          replies = part_answers ks (done 0 ∷ done last ∷ rest);
          calls = armed p w epollout ∷ rest_of w ∷ disarmed w ∷ n.calls;
        } in
        let (g, run, q) =
          write_events_lem ks n' (advance w k) last rest (ground arith) type (omega arith) some_left
            refl in
        let (v, e, calls) = q.calls in
        (
          g,
          rw (part_run n w k (part_answers ks (done 0 ∷ done last ∷ rest)) found type more r) run,
          record {
            waiter = q.waiter;
            others = λ x o. q.others x o ∙ ground arith;
            app = q.app;
            fresh = q.fresh;
            replies = q.replies;
            calls = (v, ground arith, calls);
          },
        )

    -- The waiter when async_send has armed it.
    abbrev pub writing : Waiter C → ℕ → ℕ → ℕ → C → Waiter C
    writing w buffer length flags cb = record w {
      wait_type = wait_write;
      cb = cb;
      flags = flags;
      buffer = buffer;
      length = length;
      num_written = 0;
    }

    abbrev pub begun : Net C A → Waiter C → ℕ → ℕ → ℕ → C → List Reply → Net C A
    begun n w buffer length flags cb rest = record n {
      waiters = update n.waiters p (some (writing w buffer length flags cb));
      replies = rest;
      calls = armed p w epollout ∷ send w.fd buffer length flags ∷ n.calls;
    }

    blocks_run :
        (n : Net C A) (w : Waiter C) (buffer length flags errno : ℕ) (cb : C) (rest : List Reply)
        → n.waiters p ≡ some w
        → would_block errno ≡ true
        → n.replies ≡ failed errno ∷ done 0 ∷ rest
        → async_send call p buffer length flags cb n
          ≡ ok (pos 0) (begun n w buffer length flags cb rest)
    unfolding async_send
    blocks_run n w buffer length flags errno cb rest found blocks r = ground arith

    -- A send that would block, and whose events report no error and write the buffer in parts, calls the
    -- callback once, after the last part; each part begins where the one before ended, and the last ends where the
    -- buffer does.
    pub async_send-completes :
        (n : Net C A) (w : Waiter C) (buffer length flags errno : ℕ) (cb : C) (ks : List ℕ)
        (last : ℕ) (rest : List Reply)
        → n.waiters p ≡ some w
        → would_block errno ≡ true
        → sum ks + last ≡ length
        → 0 < last
        → n.replies ≡ failed errno ∷ done 0 ∷ part_answers ks (done 0 ∷ done last ∷ rest)
        → (g : Net C A) × ((async_send call p buffer length flags cb >> write_events ks) n
            ≡ call cb p (pos last) g)
          × Written
              (begun n w buffer length flags cb (part_answers ks (done 0 ∷ done last ∷ rest)))
              (writing w buffer length flags cb)
              ks
              last
              rest
              g
    async_send-completes n w buffer length flags errno cb ks last rest found blocks whole some_left
          r =
        let rest' = part_answers ks (done 0 ∷ done last ∷ rest) in
        let (g, run, q) =
          write_events_lem ks (begun n w buffer length flags cb rest')
            (writing w buffer length flags cb) last rest (ground arith) refl (omega arith) some_left
            refl in
        (g, rw (blocks_run n w buffer length flags errno cb rest' found blocks r) run, q)
