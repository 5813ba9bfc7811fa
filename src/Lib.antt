-- ===== src/Lib.antt =====
-- A verification of the coroutine library: what its data structures, its scheduler and its
-- asynchronous calls do, and the web servers that are built on them and beside them.
--
-- The program. Coroutines run on threads, one thread to a processor. Each thread has a local
-- scheduler with a queue of ready coroutines, an intrusive list (util/list.h). A coroutine gives up
-- its timeslice, or goes to sleep until another one wakes it (scheduler.c). It can sleep until a time,
-- through the heap of timers that all threads share (util/heap.c), or until a descriptor is ready,
-- through epoll (platform/poll_epoll.c). The event loop, a coroutine itself, polls both and wakes the
-- sleepers. The calls of async.c try a system call and sleep where it would block. A timer whose signal
-- ends a timeslice preempts them (platform/sched_linux.c). A web server runs a coroutine for each
-- connection (bench/webserver/main.c); a second one, to compare it with, does without coroutines, on
-- callbacks (bench/webserver/eventlib.c and eventserv.c).
--
-- The files.
--   Prelude   names, tests, lists, integers; Prelude/Outcome how a run ends: with a value and a
--             state, in undefined behaviour, at a failed assertion, or out of the model's fuel
--   Ring      util/list.h over a store of links, each function under its name; Ring/Cycle the shape,
--             Ring/Insert and Ring/Remove the operations, Ring/Queue the tests and the list as a queue,
--             Ring/Deque the list as a queue with two ends
--   Heap      util/heap.c, each function under its name; `grow` and `place` are the parts of
--             heap_push, `take_root` and `shrink` those of heap_pop_min, `up_loop` and `down_loop`
--             their loops; Heap/Order the invariant, Heap/Up and Heap/Push, Heap/Down and Heap/Pop,
--             Heap/Overflow; Heap/Sort a run of pushes and the run of pops behind it
--   Timer     timer_compare, timer_expiration and the timeout of scheduler.c; Timer/Order and
--             Timer/Expiry relate them to time in nanoseconds
--   Sched     scheduler.c: Sched/State the structs and the smallest operations, Sched/Core the
--             switches, Sched/Wait the waits, the timers, the event loop and platform/poll_epoll.c,
--             Sched/Init the start; then Sched/Invariant what holds between the calls, and the
--             theorems: Sched/Resched, Sched/Suspend, Sched/Schedule, Sched/Wake, Sched/Boot,
--             Sched/Spawn, Sched/Die, Sched/Event, Sched/Poll, Sched/Answers,
--             Sched/Timers and Sched/Expire. Sched/Progress, Sched/Events, Sched/Round,
--             Sched/Turned and Sched/Loop put them together to sched_loop; Sched/Fair is about
--             coroutines that take turns. Sched/Threads runs the scheduler on several threads:
--             Sched/Threads/Places says where each coroutine is; Sched/Threads/Moves, Wakes, Steps,
--             Calls, Arrivals, Safety and Start are about the steps and the first state, Lost about
--             the coroutines that are awake, Woken about what happens after a wake-up.
--             Sched/Timeslice is platform/sched_linux.c, Sched/Preempt what its signal does between two
--             steps (sched_resched_with and sched_wait_with are sched_resched and sched_wait with what a
--             signal handler does after each call)
--   Async     async.c; Async/Retry its loops, Async/Connect and Async/Sleep; Async/Waits the loops on the
--             scheduler (sched_retry, sched_attempt and wait_or_return), Async/Match that they agree
--   Web       send_all, on_url and on_done of bench/webserver/main.c; Web/Url the callbacks, Web/Send
--             send_all, Web/Handler server_handler_coro and what it calls (`respond` is the end of a
--             round of its loop), Web/Arrival read_and_parse, Web/Response send_http_response,
--             Web/Session a whole connection, Web/Reset one that the client resets, Web/Main main,
--             over connections that wait (async_accept does not put it to sleep), Web/Threads main
--             with a thread for each connection
--   Event     bench/webserver/eventlib.c: the handlers of events (`accepted`, `received` and `sent` are
--             their ends), Event/Calls the calls and the loop (accept_reply, recv_reply and send_reply
--             are their ends), Event/Resume reads that block, Event/Write writes that do
--   Serve     bench/webserver/eventserv.c: its structs and the callbacks of the parser; Serve/Calls the
--             other callbacks (read_request is on_read, accept_request on_accept, start_next
--             next_request, done_request request_done, response_helper send_http_response_helper),
--             Serve/Cycle a request, Serve/Visit and Serve/Session a whole connection, Serve/Depth
--             several requests at once, Serve/Reset a connection that the client resets, Serve/Start
--             main
--   Context   arch/context_gcc_amd64.S: the instructions and what the processor does with them, and the
--             four functions; Context/Restore, Context/Exchange, Context/Create what they do,
--             Context/Switch context.h, Context/Between its context_switch
--   Lock      platform/lock.h on POSIX; Lock/Section the section of sched_wait under the global mutex,
--             Lock/Step what it is when nothing comes between, Lock/Blocked when a signal does
-- The modules called Tests hold concrete runs.
--
-- The model. A function of C is a function from a state to an outcome. A scheduler call that does not
-- return to its caller says where control goes instead: to the start of a new coroutine, or back to
-- one that had switched away or was suspended. So a call whose caller sleeps is cut in two at the
-- suspension (event_wait_begin and event_wait_end), and sched_suspend is cut at its compare-and-exchange,
-- where other threads may come between (suspend_begin and suspend_commit). What malloc, realloc, the
-- clock, epoll and the system calls answer is an argument of the functions that call them. The loops
-- of the heap run on fuel, the number of items and one for a push, the number of items for a pop: each
-- round halves or doubles the index, so that is enough. The loops of async.c, of the poll and of the
-- timers run over the list of the kernel's answers, and so does that of send_all.
-- A machine of several threads is what they share and, for each, its local scheduler; a step is an
-- operation of one thread, with sched_suspend cut at its compare-and-exchange. The exchange of
-- sched_schedule and the queueing that follows it are one step, as are the operations on a thread's own
-- queue: no thread touches another's (the code under SCHED_WORK_STEALING is off). An event loop neither
-- suspends itself nor ends.
-- In Event and Serve the answers of the kernel are part of the state, in the order of the calls, and
-- the calls are kept, latest first. A callback is a value; calling one takes fuel, one for each that has
-- not returned yet. What http_parser_execute does is a tree: the callbacks in order, each with what
-- follows its result. A failed assertion and a call of exit both end a run as `abort`.
--
-- In Context an instruction is a value, and the code of a function a list of them; the memory is a function
-- from the address of an aligned word of 8 bytes, and no address of the code wraps around, but for the
-- stack pointer. In Sched a context is only the point where it was saved. In Lock the functions of pthread
-- are a parameter, and a call that waits for ever is out of fuel.
--
-- Not modelled: the assembly for i386 (arch/context_gcc_x86.S), the mutexes of Windows, and the HTTP parser,
-- vsnprintf and the clock that the servers use, which are parameters. But for Lock, a section under a mutex is
-- one step. A list's nodes are only read and
-- written through pointers that are not NULL: when they are freed is the caller's matter. A time is
-- not before 1970, and a sleep not negative. The length that vsnprintf returns is not negative. The
-- bytes that the servers send and receive are not kept, but for those of a URL.
pub mod Prelude
pub mod Ring
pub mod Heap
pub mod Timer
pub mod Sched
pub mod Async
pub mod Web
pub mod Event
pub mod Serve
pub mod Context
pub mod Lock
