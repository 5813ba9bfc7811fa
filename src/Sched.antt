-- ===== src/Sched.antt =====
-- scheduler.c: coroutines, the per-thread run lists, and the waits for events and timers.
pub mod State
pub mod Core
pub mod Wait
pub mod Init
pub mod Invariant
pub mod Resched
pub mod Suspend
pub mod Schedule
pub mod Boot
pub mod Wake
pub mod Die
pub mod Event
pub mod Poll
pub mod Timers
pub mod Progress
pub mod Expire
pub mod Events
pub mod Round
pub mod Turned
pub mod Loop
pub mod Fair
pub mod Spawn
pub mod Answers
pub mod Threads
pub mod Preempt
pub mod Timeslice
pub mod Examples
mod Tests
