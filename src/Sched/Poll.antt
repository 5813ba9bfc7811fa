-- ===== src/Sched/Poll.antt =====
-- Waiting for a file descriptor: sched_event_wait, sched_poll_event, and the event loop between.
use shproject.Prelude.{ℕ, ◌≡◌, ◌≢◌, refl, ◌∙◌, false, none, some, List, [], ◌∷◌, arith, ◌==◌}
use shproject.Prelude.Outcome.{ok, ◌>>◌, Returns, returns, Returns-bind, Returns-mono}
use shproject.Heap.{update}
use shproject.Sched.State.{Coroutine, EventWait, add, del, World}
use shproject.Sched.Core.{sched_prepare_to_suspend, sched_suspend, sched_resched}
use shproject.Sched.Wait.{event_wait_begin, event_wait_end, dispatch, epollet, epolloneshot}
use shproject.Sched.Invariant.{queue, current, IsSound}
use shproject.Sched.Schedule.{IsAsleep}
use shproject.Sched.Resched.{sched_resched_lem}
use shproject.Sched.Wake.{prepare-suspend-sleeps}
use Prim.Native.Nat.{bit_or}
use shproject.Sched.Event.{polled, polled-IsSound, sched_poll_event-wakes}

-- sched_event_wait up to its suspension is sched_prepare_to_suspend and sched_suspend in a world
-- where the wait is registered. The call of epoll_ctl comes between the two, and touches neither.
begin_run :
    (w : World) (key fd events : ℕ) (x : Coroutine)
    → w.coros (current w) ≡ some x
    → event_wait_begin key fd events 0 w
      ≡ (sched_prepare_to_suspend >> sched_suspend) (
          polled w
            (update w.waits key (some (record { fd = fd; events = 0; coro = some (current w) })))
            (add fd (bit_or (bit_or events epollet) epolloneshot) key ∷ w.epoll))
unfolding event_wait_begin sched_prepare_to_suspend
begin_run w key fd events x e = ground arith

end_run :
    (w : World) (key revents : ℕ) (wait : EventWait)
    → w.waits key ≡ some wait
    → wait.events ≡ revents
    → (revents == 0) ≡ false
    → event_wait_end key 0 w
      ≡ ok revents (polled w (update w.waits key none) (del wait.fd ∷ w.epoll))
unfolding event_wait_end
end_run w key revents wait e r nz = ground arith

-- What sched_event_wait leaves when its caller sleeps and the event loop runs.
pub record Waiting (w : World) (key fd events c : ℕ) (rest : List ℕ) (g : World) : Type 0 where
  pub sound : IsSound g
  pub next : current g ≡ c
  pub order : queue g ≡ rest
  pub sleeper : (x : Coroutine) × IsAsleep g (current w) x × (x.private_errno ≡ w.lsched.errno)
  pub wait : g.waits key ≡ some (record { fd = fd; events = 0; coro = some (current w) })
  pub calls : g.epoll ≡ add fd (bit_or (bit_or events epollet) epolloneshot) key ∷ w.epoll
  pub loop : g.lsched.event_loop_coro ≡ w.lsched.event_loop_coro

event_wait_begin-waits :
    (w : World) (key fd events c : ℕ) (rest : List ℕ)
    → IsSound w
    → queue w ≡ c ∷ rest
    → w.lsched.event_loop_coro ≢ current w
    → Returns (λ _ g. Waiting w key fd events c rest g) (event_wait_begin key fd events 0 w)
event_wait_begin-waits w key fd events c rest s q off =
    let (x, ea, free, up) = s.running in
    let waits =
      update w.waits key (some (record { fd = fd; events = 0; coro = some (current w) })) in
    let epoll = add fd (bit_or (bit_or events epollet) epolloneshot) key ∷ w.epoll in
    rw (begin_run w key fd events x ea) (
      Returns-mono
        (prepare-suspend-sleeps (polled w waits epoll) c rest (polled-IsSound w waits epoll s) q
          off)
        λ _ g (_, p).
          let (y, found, state, free', saved, kept) = p.sleeper in
          record {
            sound = p.sound;
            next = p.next;
            order = p.order;
            sleeper = (
              y,
              record {
                found = found;
                state = state;
                free = free';
                saved = λ h. absurd cc;
                nonnull = ground (arith, s.nonnull);
                idle = ground (arith, s.distinct, q, p.next);
              },
              kept,
            );
            wait = ground (arith, p.poll);
            calls = p.poll.1;
            loop = p.poll.2;
          })

-- The event came: the caller is queued, with its errno, and the wait has the events.
record Awoken (w : World) (key fd events revents c : ℕ) (g : World) : Type 0 where
  sound : IsSound g
  next : current g ≡ c
  order : queue g ≡ current w ∷ []
  errno : (x : Coroutine) × (g.coros (current w) ≡ some x) × (x.private_errno ≡ w.lsched.errno)
  wait : (t : EventWait) × (g.waits key ≡ some t) × (t.events ≡ revents) × (t.fd ≡ fd)
  calls : g.epoll ≡ add fd (bit_or (bit_or events epollet) epolloneshot) key ∷ w.epoll
  loop : g.lsched.event_loop_coro ≡ w.lsched.event_loop_coro

event-awakes :
    (w : World) (key fd events revents c : ℕ) (g : World)
    → Waiting w key fd events c [] g
    → Returns (λ _. Awoken w key fd events revents c) (dispatch ((key, revents) ∷ []) g)
unfolding dispatch
event-awakes w key fd events revents c g p =
    let (x, z, kept) = p.sleeper in
    Returns-bind
      (sched_poll_event-wakes g key (current w) revents
        (record { fd = fd; events = 0; coro = some (current w) }) x p.sound p.wait refl z)
      λ _ g' a.
        let (y, y', found, found', up, same) = a.woken.awake in
        let (old, wait, e, e', gone, came, there) = a.kept in
        returns (record {
          sound = a.woken.sound;
          next = a.woken.same ∙ p.next;
          order = ground (arith, a.woken.order, p.order);
          errno = (y', found', ground (arith, z.found));
          wait = (wait, e', came, ground (arith, p.wait));
          calls = a.calls ∙ p.calls;
          loop = a.woken.poll.2 ∙ p.loop;
        })

-- The caller runs again.
record Back (w : World) (key fd events revents c : ℕ) (g : World) : Type 0 where
  sound : IsSound g
  next : current g ≡ current w
  order : queue g ≡ c ∷ []
  errno : g.lsched.errno ≡ w.lsched.errno
  wait : (t : EventWait) × (g.waits key ≡ some t) × (t.events ≡ revents) × (t.fd ≡ fd)
  calls : g.epoll ≡ add fd (bit_or (bit_or events epollet) epolloneshot) key ∷ w.epoll
  loop : g.lsched.event_loop_coro ≡ w.lsched.event_loop_coro

yield-Back :
    (w : World) (key fd events revents c : ℕ) (g : World)
    → Awoken w key fd events revents c g
    → Returns (λ _. Back w key fd events revents c) (sched_resched g)
yield-Back w key fd events revents c g p =
    Returns-mono (sched_resched_lem g (current w) [] p.sound p.order) λ _ g' (_, y).
      let (x, found, kept) = p.errno in
      let (x', found', there) = y.restored in
      let (t, e, came, fd') = p.wait in
      record {
        sound = y.sound;
        next = y.next;
        order = ground (arith, y.order, p.next);
        errno = ground arith;
        wait = (t, ground (arith, y.poll), came, fd');
        calls = y.poll.1 ∙ p.calls;
        loop = y.poll.2 ∙ p.loop;
      }

-- Waiting for a descriptor, from end to end, when no other coroutine is ready: the caller sleeps, the
-- event loop gets the event and gives up its timeslice, and sched_event_wait returns the events in
-- its caller, which has its own errno again. The descriptor is registered once, and then
-- unregistered; only the event loop is queued, as before.
pub event_wait-roundtrip :
    (w : World) (key fd events revents c : ℕ)
    → IsSound w
    → queue w ≡ c ∷ []
    → w.lsched.event_loop_coro ≢ current w
    → (revents == 0) ≡ false
    → Returns
        (λ r g.
          (r ≡ revents)
          × IsSound g
          × (current g ≡ current w)
          × (queue g ≡ c ∷ [])
          × (g.lsched.errno ≡ w.lsched.errno)
          × (g.lsched.event_loop_coro ≡ w.lsched.event_loop_coro)
          × (g.epoll ≡ del fd ∷ add fd (bit_or (bit_or events epollet) epolloneshot) key ∷ w.epoll))
        ((event_wait_begin key fd events 0
            >> dispatch ((key, revents) ∷ [])
            >> sched_resched
            >> event_wait_end key 0)
          w)
event_wait-roundtrip w key fd events revents c s q off nz =
    Returns-bind
      (Returns-bind
        (Returns-bind (event_wait_begin-waits w key fd events c [] s q off)
          λ _. event-awakes w key fd events revents c)
        λ _. yield-Back w key fd events revents c)
      λ _ g p.
        let (t, e, came, fd') = p.wait in
        rw (end_run g key revents t e came nz) (
          returns (
            refl,
            polled-IsSound g (update g.waits key none) (del t.fd ∷ g.epoll) p.sound,
            p.next,
            p.order,
            p.errno,
            p.loop,
            ground (arith, p.calls),
          ))
