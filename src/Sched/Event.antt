-- ===== src/Sched/Event.antt =====
-- sched_poll_event: the event of a wait wakes its coroutine.
use shproject.Prelude.{ℕ, ◌≡◌, refl, Option, none, some, List, [], ◌∷◌, ◌++◌, arith}
use shproject.Prelude.Outcome.{Returns, Returns-mono}
use shproject.Heap.{update}
use shproject.Sched.State.{Coroutine, EventWait, EpollCall, World}
use shproject.Sched.Core.{sched_schedule}
use shproject.Sched.Wait.{sched_poll_event}
use shproject.Sched.Invariant.{queue, IsSound}
use shproject.Sched.Schedule.{Scheduled, IsAsleep, sched_schedule-asleep}

-- A world whose event waits and whose calls of epoll_ctl differ.
abbrev pub polled : World → (ℕ → Option EventWait) → List EpollCall → World
polled w waits epoll = record w { waits = waits; epoll = epoll }

pub polled-IsSound :
    (w : World) (waits : ℕ → Option EventWait) (epoll : List EpollCall)
    → IsSound w
    → IsSound (polled w waits epoll)
polled-IsSound w waits epoll s = record {
  lock = s.lock;
  distinct = s.distinct;
  nonnull = s.nonnull;
  ready = s.ready;
  running = s.running;
  looping = s.looping;
}

-- The waits after the event of a wait was handled: its coroutine is taken out of it.
abbrev pub answered : World → ℕ → EventWait → ℕ → ℕ → Option EventWait
answered w key wait revents =
    update (update w.waits key (some (record wait { coro = none }))) key
      (some (record wait { coro = none; events = revents }))

pub event_run :
    (w : World) (key c revents : ℕ) (wait : EventWait)
    → w.waits key ≡ some wait
    → wait.coro ≡ some c
    → sched_poll_event key revents w
      ≡ sched_schedule c (polled w (answered w key wait revents) w.epoll)
unfolding sched_poll_event
event_run w key c revents wait e h = ground arith

-- What an event does: it wakes the waiting coroutine, and is kept for it.
pub record Answered (w : World) (key c revents : ℕ) (g : World) : Type 0 where
  pub woken : Scheduled (polled w g.waits g.epoll) c (queue w ++ c ∷ []) g
  pub kept :
      (old wait : EventWait) × (w.waits key ≡ some old)
      × (g.waits key ≡ some wait)
      × (wait.coro ≡ none)
      × (wait.events ≡ revents)
      × (wait.fd ≡ old.fd)
  pub calls : g.epoll ≡ w.epoll

-- The first event on a wait queues its sleeping coroutine and is kept as the result.
pub sched_poll_event-wakes :
    (w : World) (key c revents : ℕ) (wait : EventWait) (x : Coroutine)
    → IsSound w
    → w.waits key ≡ some wait
    → wait.coro ≡ some c
    → IsAsleep w c x
    → Returns (λ _. Answered w key c revents) (sched_poll_event key revents w)
sched_poll_event-wakes w key c revents wait x s e h z = rw (event_run w key c revents wait e h) (
    Returns-mono
      (sched_schedule-asleep (polled w (answered w key wait revents) w.epoll) c x
        (polled-IsSound w (answered w key wait revents) w.epoll s)
        (record {
          found = z.found;
          state = z.state;
          free = z.free;
          saved = z.saved;
          nonnull = z.nonnull;
          idle = z.idle;
        }))
      λ _ g p. record {
        woken = record {
          sound = p.sound;
          order = p.order;
          same = p.same;
          errno = p.errno;
          timers = p.timers;
          poll = (refl, refl, p.poll.2);
          slots = p.slots;
          awake = p.awake;
          entry = p.entry;
          others = p.others;
        };
        kept = (
          wait,
          record wait { coro = none; events = revents },
          e,
          ground (arith, p.poll),
          refl,
          refl,
          refl,
        );
        calls = p.poll.1;
      })
