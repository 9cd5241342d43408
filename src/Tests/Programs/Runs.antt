-- ===== src/Tests/Programs/Runs.antt =====
-- The run of the first coroutine, that calls the second, awaits it and gets its result.
use c_async_await.Base.{ℕ, ◌≡◌, refl, Bool, false, some, [], ◌∷◌, List, arith, ok}
use c_async_await.HashMap.{insert, deref, set_val, find}
use c_async_await.Ring.{push_back, pop_front, peek_front}
use c_async_await.Pool.{running, get_task, take_slot}
use c_async_await.Scheduler.{
  World, start_new_task, async_switch, current_task_handle, finish_current_task,
}
use c_async_await.GraphScheduler.{
  Graph, graph_vtable, graph_scheduler, use_graph_scheduler, graph_register_task, park,
}
use c_async_await.GraphScheduler.Register.{new_task}
use c_async_await.Async.{run_async_main, async_call, async_return, await, await_resume, got}
use c_async_await.Program.{IsProgram, begun, then, called, waits, HasSpace}
use c_async_await.Program.Keep.{await-IsProgram, with_waiting}
use c_async_await.Program.Grow.{run_async_main-IsProgram, async_call-IsProgram}
use c_async_await.Program.Back.{async_return-IsProgram, async_return-await_resume}
use c_async_await.Program.Runs.{IsSome, Reach-IsProgram}
use c_async_await.Tests.{landed, landed_ok}
use c_async_await.Tests.Programs.{
  main_world, main_run, two_world, two_run, table1, table2, second_task,
}
use c_async_await.Tests.Programs.Waits.{waiting_world, waiting_run}

-- The first coroutine has space for another.
pub main_space : HasSpace main_world
unfolding run_async_main async_call start_new_task graph_vtable insert use_graph_scheduler deref
    set_val push_back async_switch take_slot graph_register_task get_task main_world
main_space = record {
  slots = omega arith;
  handles = omega arith;
  cells = omega arith;
  nodes = omega arith;
  places = omega arith;
}

Reach-IsProgram_example : IsSome waiting_world
unfolding run_async_main async_call start_new_task graph_vtable insert use_graph_scheduler deref
    set_val push_back async_switch take_slot graph_register_task get_task main_world two_world
Reach-IsProgram_example =
    Reach-IsProgram {base = 65536} {main_fn = 100} {argument = 7} (omega arith) (
      then (then (begun main_run) (called 262144 200 8 2 (omega arith) main_space two_run)) (
        waits 70000 2 2 2 (new_task 2) (omega arith) refl refl refl refl (λ i. ground arith)
          waiting_run))

pub main_world-IsProgram : IsProgram main_world 1 [] (λ _. false) table1
unfolding use_graph_scheduler
main_world-IsProgram =
    let (w, ran, is) = run_async_main-IsProgram 65536 100 7 (omega arith) in
    landed_ok (λ w. IsProgram w 1 [] (λ _. false) table1) main_run (w, ran, is)

pub two_world-IsProgram : IsProgram two_world 1 (2 ∷ []) (λ _. false) table2
unfolding run_async_main async_call start_new_task graph_vtable insert use_graph_scheduler deref
    set_val push_back async_switch take_slot graph_register_task get_task main_world
two_world-IsProgram =
    let (w, ran, is) =
      async_call-IsProgram main_world-IsProgram 262144 200 8 (omega arith) main_space in
    landed_ok (λ w. IsProgram w.0 1 (2 ∷ []) (λ _. false) table2) two_run ((w, 2), ran, is)

pub waiting_world-IsProgram : IsProgram waiting_world 2 [] (with_waiting 1 (λ _. false)) table2
unfolding run_async_main async_call start_new_task graph_vtable insert use_graph_scheduler deref
    set_val push_back async_switch take_slot graph_register_task get_task main_world two_world
waiting_world-IsProgram =
    let (w, ran, is, _, _) =
      await-IsProgram two_world-IsProgram 70000 2 (new_task 2) (omega arith) refl refl refl
        (omega arith) in
    landed (λ w. IsProgram w.0 2 [] (with_waiting 1 (λ _. false)) table2) waiting_run
      ((w, _), ran, is)

async_return-IsProgram_example :
    (w' : World Graph) × (async_return graph_vtable waiting_world 42 ≡ ok w')
    × ((b : ℕ) × (bs : List ℕ) × (ws' : ℕ → Bool) × IsProgram w' b bs ws' table2)
unfolding run_async_main async_call start_new_task graph_vtable insert use_graph_scheduler deref
    set_val push_back async_switch take_slot graph_register_task get_task main_world two_world await
    graph_scheduler park find pop_front peek_front current_task_handle finish_current_task
async_return-IsProgram_example =
    async_return-IsProgram waiting_world-IsProgram (record (new_task 2) { parent = some 1 }) refl
      (second_task 278528 8 running) refl (omega arith) refl 42

async_return-await_resume_example :
    (w' : World Graph) × (async_return graph_vtable waiting_world 42 ≡ ok w')
    × (1 ≡ w'.on_cpu)
    × ((rsp : ℕ) → await_resume graph_scheduler w' rsp w'.on_cpu 2 2 ≡ some (w', got 42))
unfolding run_async_main async_call start_new_task graph_vtable insert use_graph_scheduler deref
    set_val push_back async_switch take_slot graph_register_task get_task main_world two_world await
    graph_scheduler park find pop_front peek_front current_task_handle finish_current_task
async_return-await_resume_example =
    async_return-await_resume waiting_world-IsProgram (record (new_task 2) { parent = some 1 }) refl
      (second_task 278528 8 running) refl (omega arith) refl 42 1 refl
