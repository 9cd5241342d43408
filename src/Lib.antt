-- ===== src/Lib.antt =====
-- A library of coroutines with async/await for C: stackful coroutines in a pool of slots, a
-- scheduler behind a table of function pointers, and the calls that a program makes over both. The
-- files of src/ are modelled as functions on explicit state; a failed assertion, a NULL
-- dereference, an overflow of a signed number or a read of an unwritten cell is `none` (or `fault`
-- where the process can also exit).
--
-- - Base: lists, Boolean tests and results that the parts share.
-- - Ring: the queue macros of src/storage.h on a struct with `elems`, `start`, `end` and `cap`.
--   Ring.Refine says when a ring holds a list; Ring.Push is about adding.
-- - Stack: the stack macros of src/storage.h; Stack.Order says when a stack holds a list.
-- - HashMap: src/hashmap.c. A chain is a list of nodes in place of `next` pointers; a pointer to a
--   node is its cell and its place. HashMap.Lookup, Map, Expand and Insert relate the table to a
--   map from keys to nodes.
-- - Pool: the `TaskPool` of src/scheduler.h and the parts of `start_new_task` and `free_task` of
--   src/scheduler.c that work on it. Pool.FreeList says when the free list is well formed.
-- - Scheduler: the rest of src/scheduler.c over the `SchedulerVTable`, with `async_switch` of
--   src/switch.c and `async_skip` of src/async.c. `World` is the pool, the scheduler's data and
--   the coroutine that has the processor.
-- - QueueScheduler: src/queue_scheduler.c, round robin.
-- - GraphScheduler: src/graph_scheduler.c, with the nodes that `calloc` makes in a heap of its
--   own. GraphScheduler.Invariant says when queue, flags and table agree (IsSound); the other
--   children are about one operation each.
-- - Async: src/async.c. Async.Running says when a program under the graph scheduler is well formed
--   (IsRunning): the processor belongs to the front of the queue and every queued task can run.
--   Its other children are about one call each, Async.Orphan about an orphan that returns.
-- - Program: a whole run under the graph scheduler. Its steps are the calls of Async, in any order
--   that keeps the rules which the steps name; Program.Runs is about what the steps reach,
--   Program.Keep, Grow, Orphan, Back, Any and All about one call each, Program.Ways about who
--   waits for whom.
-- - Marshal: `pack` and `unpack` of src/io.c, bytes in memory lowest first.
-- - Arena: `arena_init`, `arena_alloc` and `arena_deinit` of src/arena.c. The loop makes new
--   chunks on fuel; Arena.Alloc says how much is enough.
-- - Sockets: `await_async_recv`, `await_async_send` and `await_async_accept` of src/io.c, with the
--   system calls as parameters. Sockets.Calls: `async_recv`, `async_send` and `async_accept`,
--   which pass their arguments through `pack` to a coroutine; what stands in that buffer when the
--   coroutine runs is a parameter. Sockets.Coroutine is about a turn of that coroutine in a
--   program.
-- - Assembly: the block of `async_switch_asm` in src/switch.c, its instructions run on registers
--   and a memory of words. Assembly.Context is about the saves, Assembly.Run about the way through
--   the block, Assembly.RoundTrip about a switch and the switch back.
-- - Str: examples/str.c. A string is a memory of bytes, written or not, with its sizes; Str.Text
--   says when it holds a text. Str.Join, Cut, Trim and Resize are about the operations; loops on
--   capacities run on fuel, and Str.Join says how much is enough.
-- - Echo: `read_n_bytes`, `write_n_bytes` and `echo_loop` of examples/echo_async.c for one client.
--   What the awaited `recv` and `send` bring is a list, an event for each call, and what the other
--   coroutines do to the two counters while this one awaits is a function; Echo.Stream says which
--   bytes a reader has before it, Echo.Rounds, Reading, Writing, Message, Turns and Serving are
--   about the loops. The rounds of `echo_loop` run on fuel, one for each message and one for the
--   end.
-- - Epoll: `client_on_update` of examples/echo_epoll.c, the step of a client's state machine.
--   Epoll.Bytes, State, Parts and Updates are about reading, Epoll.Sending about writing.
-- - Clients: `server_new_client` and `server_close_client` of examples/echo_epoll.c on a heap of
--   links. Clients.Chain says when the links make a list, Clients.Close is about closing in such a
--   list, Clients.Links and Keep about the links whatever comes and goes, Clients.Stop is
--   `stop_server`.
-- - Listen: the set-up of the socket that listens, the same in both servers, with what
--   `getaddrinfo`, `socket`, `bind` and `listen` return as a parameter.
-- - EpollServer: `start_server` and `run_server` of examples/echo_epoll.c over Epoll and Clients.
--   What the clock, `epoll_wait`, `accept`, `epoll_ctl`, `recv` and `send` bring comes with each
--   round. EpollServer.Invariant says when the server is well formed, EpollServer.Events, Batch
--   and Rounds are about one event, the events of a round and the rounds.
-- - AsyncServer: `async_main`, `accept_loop` and `server_stats` of examples/echo_async.c, over
--   Program: AsyncServer.Keep is about a turn of the loops, AsyncServer.Main about the start.
-- - Tests: the theorems at small inputs, and a program of two coroutines step by step.
--
-- The parts interact as in the code. `async_call` takes a slot of the pool and registers its handle
-- with the scheduler; the graph scheduler keeps the handle's node in the hash table and in a ring.
-- `await`, `async_skip` and `async_return` ask the scheduler for the next handle and switch to it.
-- A switch ends the step of one coroutine: a call that waits is cut there into the part before
-- (`await`, `await_any`, `await_all`, `busy_wait_ready`) and the part when the coroutine has the
-- processor again (`await_resume`, or the next turn of the loop), so that a run is a sequence of
-- such steps. All other loops are recursion on a list or on the number of cells, bytes or events
-- left, but for those of `arena_alloc`, where each round doubles the size, so as many rounds as
-- doublings reach the request are enough, those of `stop_server`, for which two rounds are enough,
-- and those of the strings and of the echo server that are named above: these run on fuel.
--
-- Numbers are naturals with the wrap written out where the code wraps (`uint64_t` in the table, bit
-- patterns in `pack`); an `int` that would overflow is a failure. Pointers are natural numbers with
-- 0 for NULL, or an option. Memory from `malloc`, `calloc` and `realloc` is taken to be there;
-- `mmap` is a parameter, the address or the failure. Handles that are keys of the table lie in 1 to
-- 2^31 - 1.
--
-- Not modelled: the contents of the stacks under the pool (in Scheduler a switch saves the stack
-- pointer that is given to it; Assembly is about the words that the instructions write, and the two
-- are not joined); what becomes of the buffer of `async_recv` before its coroutine runs; the order
-- of the last steps of a process that exits; what is logged, and the address that is printed for
-- it; the end of `async_main`, behind a loop that never ends; tests/.
pub mod Base
pub mod Ring
pub mod Stack
pub mod HashMap
pub mod Pool
pub mod Scheduler
pub mod QueueScheduler
pub mod GraphScheduler
pub mod Async
pub mod Assembly
pub mod Marshal
pub mod Arena
pub mod Program
pub mod Sockets
pub mod Str
pub mod Echo
pub mod Listen
pub mod Epoll
pub mod Clients
pub mod EpollServer
pub mod AsyncServer
pub mod Tests
