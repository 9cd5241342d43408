-- ===== src/Tests/Programs.antt =====
-- A program of two coroutines: the first starts and calls the second.
pub mod Waits
pub mod Calls
pub mod Skips
pub mod Runs
pub mod Loops
pub mod Many
pub mod Orphans
use c_async_await.Base.{
  ℕ, zero, suc, ◌+◌, ◌*◌, ◌≡◌, ◌≢◌, ◌==◌, if◌then◌else◌, refl, true, false, Option, none, some,
  List, [], ◌∷◌, ◌++◌, mem, inl, inr, arith, ok, exit,
}
use c_async_await.HashMap.{HashNode, insert, deref, set_val, find}
use c_async_await.Ring.{push_back, pop_front, peek_front, push_front}
use c_async_await.Pool.{
  State, init, ready, running, free, Handle, Task, TaskPool, empty_pool, get_task, take_slot,
}
use c_async_await.Scheduler.{
  World, async_skip, start_new_task, async_switch, current_task_handle, finish_current_task,
}
use c_async_await.GraphScheduler.{
  Node, Graph, graph_vtable, graph_scheduler, use_graph_scheduler, graph_register_task, park,
}
use c_async_await.GraphScheduler.Invariant.{Table}
use c_async_await.GraphScheduler.Turns.{front}
use c_async_await.GraphScheduler.Register.{bound, entry, new_task}
use c_async_await.Async.{
  run_async_main, async_call, async_return, await, await_resume, parked, got, Awaited, exit_code,
}
use c_async_await.Async.Running.{IsRunning, behind}
use c_async_await.Async.Start.{
  start, first_node, run_async_main-IsRunning, async_call-IsRunning_new, IsCalled,
}
use c_async_await.Async.Skip.{async_skip-IsRunning}
use c_async_await.Async.Wait.{
  await-IsRunning_queued, await-IsRunning_front, await_finished, await_resume-IsRunning,
}
use c_async_await.Async.Return.{async_return-IsRunning_parent, async_return_main, finished}
use c_async_await.Async.Leave.{async_return-IsRunning_next}
use c_async_await.Tests.{value_or, landed, ok_or, landed_ok}

-- The first coroutine runs.
abbrev pub main_world : World Graph
unfolding run_async_main
main_world = ok_or start (run_async_main graph_vtable (some 65536) 100 7 start)

-- The handle 1 has the node at the address 1.
abbrev pub table1 : Table
table1 = bound (λ _. none) 1 1

pub main_run : run_async_main graph_vtable (some 65536) 100 7 start ≡ ok main_world
unfolding run_async_main async_call start_new_task graph_vtable insert use_graph_scheduler deref
    set_val push_back async_switch take_slot graph_register_task get_task main_world
main_run = refl

main_world-IsRunning : IsRunning main_world 1 [] table1 []
unfolding use_graph_scheduler
main_world-IsRunning =
    let (w, ran, r, _, _) = run_async_main-IsRunning 65536 100 7 (omega arith) in
    landed_ok (λ w. IsRunning w 1 [] table1 []) main_run (w, ran, r)

-- It calls the second.
abbrev pub two_world : World Graph
unfolding async_call
two_world = (ok_or (main_world, 0) (async_call graph_vtable (some 262144) 200 8 main_world)).0

abbrev pub table2 : Table
table2 = bound table1 2 2

pub two_run : async_call graph_vtable (some 262144) 200 8 main_world ≡ ok (two_world, 2)
unfolding run_async_main async_call start_new_task graph_vtable insert use_graph_scheduler deref
    set_val push_back async_switch take_slot graph_register_task get_task main_world two_world
two_run = refl

pub two_world-IsRunning : IsRunning two_world 1 (2 ∷ []) table2 []
unfolding run_async_main async_call start_new_task graph_vtable insert use_graph_scheduler deref
    set_val push_back async_switch take_slot graph_register_task get_task main_world
two_world-IsRunning =
    let (w, ran, (r, _, _)) =
      async_call-IsRunning_new 200 8 (omega arith) (omega arith) (inl (omega arith)) 262144
        main_world-IsRunning (omega arith) (omega arith) (omega arith) refl in
    landed_ok (λ w. IsRunning w.0 1 (2 ∷ []) table2 []) two_run ((w, 2), ran, r)

-- The task in a slot, as it was created but for its state and its stack pointer.
abbrev pub task : Handle → ℕ → ℕ → ℕ → ℕ → State → Task
task h base rsp fn argument st = record {
  stack_base = base;
  stack_ptr = rsp;
  fn = fn;
  argument = argument;
  state = st;
  orphaned = false;
  handle = h;
}

abbrev pub first_task : State → Task
first_task st = task 1 65536 70000 100 7 st

abbrev pub second_task : ℕ → ℕ → State → Task
second_task rsp argument st = task 2 262144 rsp 200 argument st
