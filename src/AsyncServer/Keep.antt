-- ===== src/AsyncServer/Keep.antt =====
-- The coroutines of the server keep the program of the graph scheduler well formed.
use c_async_await.Base.{
  ℕ, ◌+◌, ◌<◌, ◌≡◌, ◌≢◌, refl, Bool, true, false, some, List, [], ◌∷◌, ◌++◌, ◌==◌, arith, length,
  ok,
}
use c_async_await.Pool.{Task, get_task}
use c_async_await.Pool.FreeList.{IsStarted}
use c_async_await.Scheduler.{World}
use c_async_await.GraphScheduler.{Graph, graph_vtable}
use c_async_await.GraphScheduler.Invariant.{Table}
use c_async_await.GraphScheduler.Register.{bound}
use c_async_await.GraphScheduler.Turns.{front}
use c_async_await.Async.{async_call, async_orphan}
use c_async_await.Async.Running.{behind}
use c_async_await.Sockets.{failed}
use c_async_await.Program.{IsProgram, HasSpace}
use c_async_await.Program.Keep.{async_skip-IsProgram}
use c_async_await.Program.Grow.{async_call_lem}
use c_async_await.Program.Orphan.{async_orphan-IsProgram, orphaned_task}
use c_async_await.AsyncServer.{Stats, report, server_stats, accept_turn}

-- A coroutine that is called and orphaned at once.
pub call_orphan :
    {w : World Graph} {a : ℕ} {ps : List ℕ} {ws : ℕ → Bool} {f : Table}
    → IsProgram w a ps ws f
    → (base fn argument : ℕ) → 0 < base
    → HasSpace w
    → (w₁ w' : World Graph) × (async_call graph_vtable (some base) fn argument w
        ≡ ok (w₁, length w.pool.tasks + 1))
      × (async_orphan graph_vtable w₁ (length w.pool.tasks + 1) ≡ some w')
      × IsProgram w' a
          (ps ++ w.sched.fresh ∷ [])
          ws
          (bound f (length w.pool.tasks + 1) w.sched.fresh)
      × ((t : Task) × (get_task w'.pool (length w.pool.tasks + 1) ≡ some (orphaned_task t))
          × IsStarted t (length w.pool.tasks + 1) fn argument)
call_orphan {w} r base fn argument pos space =
    let (w₁, runs, is, (t, task, started), _, _) = async_call_lem r base fn argument pos space in
    let (w', orphans, is', task') = async_orphan-IsProgram (length w.pool.tasks + 1) t is task in
    (w₁, w', runs, orphans, is', (t, task', started))

module _ {w : World Graph} {a : ℕ} {ps : List ℕ} {ws : ℕ → Bool} {f : Table}
    (r : IsProgram w a ps ws f) where
  -- In a program with space, with a stack that is not NULL, a turn of `accept_loop` with a client
  -- whose socket can be made non-blocking succeeds and leaves a program: the last of the queue is
  -- an orphan that is to run `echo_loop` with that socket, and the same coroutine goes on.
  pub accept_turn-IsProgram :
      (base echo_loop client_socket : ℕ)
      → 0 < base
      → HasSpace w
      → client_socket ≢ failed
      → (w' : World Graph) × (accept_turn graph_vtable (some base) echo_loop client_socket true w
          ≡ ok w')
        × IsProgram w' a
            (ps ++ w.sched.fresh ∷ [])
            ws
            (bound f (length w.pool.tasks + 1) w.sched.fresh)
        × ((t : Task) × (get_task w'.pool (length w.pool.tasks + 1) ≡ some (orphaned_task t))
            × IsStarted t (length w.pool.tasks + 1) echo_loop client_socket)
  unfolding accept_turn
  accept_turn-IsProgram base echo_loop client_socket pos space ne =
      let (w₁, w', runs, orphans, is, task) =
        call_orphan r base echo_loop client_socket pos space in
      let some_client : client_socket == failed ≡ false = ground (arith, ne) in
      (w', rw (some_client, runs, orphans) refl, is, task)

  -- In a program, with a saved stack pointer that is not NULL, a turn of `server_stats` succeeds and
  -- leaves a program: the next coroutine of the queue has the processor, and what is printed next
  -- and the counter of bytes are as `report` leaves them.
  pub server_stats-IsProgram :
      (rsp : ℕ) (stats : Stats) (current_time : ℕ)
      → 0 < rsp
      → (w' : World Graph) × (server_stats graph_vtable w rsp stats current_time
          ≡ some (w', report stats current_time))
        × IsProgram w' (front a ps) (behind a ps) ws f
  unfolding server_stats
  server_stats-IsProgram rsp stats current_time pos =
      let (w', runs, is) = async_skip-IsProgram r rsp pos in (w', rw runs refl, is)
