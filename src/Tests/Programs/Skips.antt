-- ===== src/Tests/Programs/Skips.antt =====
-- The program goes on: the first coroutine lets the second run, which returns, or waits for the
-- first in its turn.
use c_async_await.Base.{◌≡◌, refl, false, none, some, [], ◌∷◌, inl, arith, ok}
use c_async_await.HashMap.{insert, deref, set_val, find}
use c_async_await.Ring.{push_back, pop_front, peek_front}
use c_async_await.Pool.{ready, running, get_task, take_slot}
use c_async_await.Scheduler.{
  World, async_skip, start_new_task, async_switch, current_task_handle, finish_current_task,
}
use c_async_await.GraphScheduler.{
  Graph, graph_vtable, graph_scheduler, use_graph_scheduler, graph_register_task, park,
}
use c_async_await.GraphScheduler.Register.{entry, new_task}
use c_async_await.Async.{run_async_main, async_call, async_return, await, await_resume, parked, got}
use c_async_await.Async.Running.{IsRunning}
use c_async_await.Async.Skip.{async_skip-IsRunning}
use c_async_await.Async.Wait.{with_task, await-IsRunning_queued, await_finished, await_too_early}
use c_async_await.Async.Leave.{async_return-IsRunning_next}
use c_async_await.Tests.{value_or, landed, ok_or, landed_ok}
use c_async_await.Tests.Programs.{
  main_world, two_world, table2, first_task, second_task, two_world-IsRunning,
}

-- The first skips instead, and the second runs.
abbrev skipped_world : World Graph
unfolding async_skip
skipped_world = value_or two_world (async_skip graph_vtable two_world 70000)

skipped_run : async_skip graph_vtable two_world 70000 ≡ some skipped_world
unfolding run_async_main async_call start_new_task graph_vtable insert use_graph_scheduler deref
    set_val push_back async_switch take_slot graph_register_task get_task main_world two_world await
    graph_scheduler park find pop_front peek_front async_skip skipped_world current_task_handle
    finish_current_task
skipped_run = refl

skipped_world-IsRunning : IsRunning skipped_world 2 (1 ∷ []) table2 []
skipped_world-IsRunning =
    let (w, ran, r, _) = async_skip-IsRunning 70000 (omega arith) two_world-IsRunning in
    landed (λ w. IsRunning w 2 (1 ∷ []) table2 []) skipped_run (w, ran, r)

-- It returns 9 while nobody waits.
abbrev left_world : World Graph
unfolding async_return
left_world = ok_or skipped_world (async_return graph_vtable skipped_world 9)

left_run : async_return graph_vtable skipped_world 9 ≡ ok left_world
unfolding run_async_main async_call start_new_task graph_vtable insert use_graph_scheduler deref
    set_val push_back async_switch take_slot graph_register_task get_task main_world two_world
    async_skip skipped_world await graph_scheduler park find pop_front peek_front async_return
    left_world current_task_handle finish_current_task
left_run = refl

left_world-IsRunning : IsRunning left_world 1 [] table2 []
unfolding run_async_main async_call start_new_task graph_vtable insert use_graph_scheduler deref
    set_val push_back async_switch take_slot graph_register_task get_task main_world two_world
    async_skip skipped_world await graph_scheduler park find pop_front peek_front
    current_task_handle finish_current_task
left_world-IsRunning =
    let (w, ran, _, r, _) =
      async_return-IsRunning_next skipped_world-IsRunning (new_task 2)
        (second_task 278528 8 running) refl refl (omega arith) refl 9 (inl refl) 1 [] refl in
    landed_ok (λ w. IsRunning w 1 [] table2 []) left_run (w, ran, r)

-- Then the first waits for it.
await_finished_example : await graph_scheduler left_world 70000 2 ≡ none
unfolding run_async_main async_call start_new_task graph_vtable insert use_graph_scheduler deref
    set_val push_back async_switch take_slot graph_register_task get_task main_world two_world
    async_skip skipped_world await graph_scheduler park find pop_front peek_front async_return
    left_world current_task_handle finish_current_task
await_finished_example =
    await_finished left_world-IsRunning 2 (omega arith) (entry 2 2) 2
      (record (new_task 2) { in_queue = false }) refl refl refl refl refl (omega arith) 70000
      (second_task 278528 9 ready) refl refl refl

-- Or the second waits for the first, which waits for the second.
abbrev parked_world : World Graph
unfolding await
parked_world = (value_or (skipped_world, parked 0) (await graph_scheduler skipped_world 270000 1)).0

parked_run : await graph_scheduler skipped_world 270000 1 ≡ some (parked_world, parked 1)
unfolding run_async_main async_call start_new_task graph_vtable insert use_graph_scheduler deref
    set_val push_back async_switch take_slot graph_register_task get_task main_world two_world
    async_skip skipped_world await graph_scheduler park find pop_front peek_front parked_world
    current_task_handle finish_current_task
parked_run = refl

parked_world-IsRunning : IsRunning parked_world 1 [] table2 []
unfolding run_async_main async_call start_new_task graph_vtable insert use_graph_scheduler deref
    set_val push_back async_switch take_slot graph_register_task get_task main_world two_world
    async_skip skipped_world await graph_scheduler park find pop_front peek_front
    current_task_handle finish_current_task
parked_world-IsRunning =
    let (w, ran, r, _) =
      await-IsRunning_queued skipped_world-IsRunning 1 (omega arith) (entry 1 1) 1 (new_task 1) refl
        refl refl refl refl (omega arith) 270000 (omega arith) refl refl in
    landed (λ w. IsRunning w.0 1 [] table2 []) parked_run ((w, parked 1), ran, r)

await_too_early_example :
    (w' : World Graph) × (await graph_scheduler parked_world 71000 2 ≡ some (w', parked 2))
    × (w'.on_cpu ≡ 2)
    × (await_resume graph_scheduler w' 270000 w'.on_cpu 1 1 ≡ none)
    × (await_resume graph_scheduler
          (with_task w' 1 (record (first_task ready) { argument = 9 }))
          270000
          w'.on_cpu
          1
          1
        ≡ some (with_task w' 1 (record (first_task ready) { argument = 9 }), got 9))
unfolding run_async_main async_call start_new_task graph_vtable insert use_graph_scheduler deref
    set_val push_back async_switch take_slot graph_register_task get_task main_world two_world
    async_skip skipped_world await graph_scheduler park find pop_front peek_front parked_world
    current_task_handle finish_current_task
await_too_early_example =
    await_too_early parked_world-IsRunning 2 (omega arith) (entry 2 2) 2
      (record (new_task 2) { in_queue = false }) refl refl refl refl refl (omega arith) 71000 270000
      (second_task 270000 8 running) 1 (entry 1 1) 1 (first_task running)
      (record (first_task ready) { argument = 9 }) (omega arith) refl refl
      (record { not_free = refl; not_ready = refl; stacked = omega arith }) (omega arith) refl refl
      refl (record { not_free = refl; not_ready = refl; stacked = omega arith }) refl
