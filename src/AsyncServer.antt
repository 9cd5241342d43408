-- ===== src/AsyncServer.antt =====
-- The coroutines of the server of examples/echo_async.c: `async_main`, `accept_loop` and
-- `server_stats`, over any scheduler. What the system calls return is a parameter, a function
-- pointer is its address, and a loop is cut into turns.
pub mod Keep
pub mod Main
use c_async_await.Base.{
  ℕ, ◌+◌, ◌-◌, ◌%◌, ◌^◌, Bool, true, false, Option, none, some, List, [], ◌∷◌, ◌++◌, leb, ◌==◌,
  if◌then◌else◌, ◌>>=◌, Outcome, ok, exit, lift, bind,
}
use c_async_await.Scheduler.{SchedulerVTable, Scheduler, World, async_skip}
use c_async_await.Async.{async_call, async_orphan, await, Awaited}
use c_async_await.Sockets.{failed}
use c_async_await.Listen.{Address, open_socket}

-- What `printf` shows: the seconds since the start, the count and the bytes. A `long` is its 64 bits.
pub record Line : Type 0 where
  pub seconds : ℕ
  pub clients : ℕ
  pub bytes : ℕ

-- The local variables of `server_stats`, the counters and what it has printed.
pub record Stats : Type 0 where
  pub server_start_time : ℕ
  pub last_message_time : ℕ
  pub current_client_cnt : ℕ
  pub bytes_processed : ℕ
  pub lines : List Line

-- The line of each second.
unfoldable pub report : Stats → ℕ → Stats
report stats current_time =
    if leb (stats.last_message_time + 1) current_time
    then record stats {
      last_message_time = current_time;
      bytes_processed = 0;
      lines =
          stats.lines
          ++ record {
            seconds = (current_time + (2 ^ 64 - stats.server_start_time)) % 2 ^ 64;
            clients = stats.current_client_cnt;
            bytes = stats.bytes_processed;
          }
            ∷ [];
    }
    else stats

module _ {S : Type 0} (vtable : SchedulerVTable S) where
  -- A turn of `server_stats`, up to where it runs again.
  unfoldable pub server_stats : World S → ℕ → Stats → ℕ → Option (World S × Stats)
  unfolding report
  server_stats w rsp stats current_time = do
    w' ← async_skip vtable w rsp
    some (w', report stats current_time)

  -- A turn of `accept_loop`, from what `await_async_accept` returns; `nonblock` is whether `fcntl`
  -- succeeds, `mmap` the stack of the new coroutine.
  unfoldable pub accept_turn : Option ℕ → ℕ → ℕ → Bool → World S → Outcome (World S)
  accept_turn mmap echo_loop client_socket nonblock w =
      if client_socket == failed
      then ok w
      else if nonblock
      then (bind (async_call vtable mmap echo_loop client_socket w)
          λ r. lift (async_orphan vtable r.0 r.1))
      else ok w

module _ {S : Type 0} (scheduler : Scheduler S) where
  -- `async_main` once it has its socket, up to the switch of its `await`. `accept_socket` is the
  -- address of its local variable.
  unfoldable pub run_loops :
      Option ℕ → Option ℕ → ℕ → ℕ → ℕ → ℕ → World S → Outcome (World S × Awaited)
  run_loops mmap mmap' server_stats_fn accept_loop accept_socket rsp w =
      bind (async_call scheduler.vtable mmap server_stats_fn 0 w) λ r.
        bind (lift (async_orphan scheduler.vtable r.0 r.1)) λ w₁.
          bind (async_call scheduler.vtable mmap' accept_loop accept_socket w₁)
            λ r'. lift (await scheduler r'.0 rsp r'.1)

  -- `nonblock` is whether `fcntl` succeeds.
  unfoldable pub async_main :
      Option (List Address)
      → Bool
      → Bool
      → List ℕ
      → Option ℕ
      → Option ℕ
      → ℕ
      → ℕ
      → ℕ
      → ℕ
      → World S
      → Outcome (World S × Awaited)
  unfolding open_socket run_loops
  async_main addresses listens nonblock opened mmap mmap' server_stats_fn accept_loop accept_socket
        rsp w =
      bind (open_socket addresses listens opened) λ r.
        if nonblock
        then run_loops mmap mmap' server_stats_fn accept_loop accept_socket rsp w
        else exit 1
