-- ===== src/Tests/Programs/Waits.antt =====
-- The program goes on: the first coroutine waits for the second, which returns to it.
use c_async_await.Base.{◌≡◌, refl, false, some, [], arith, ok}
use c_async_await.HashMap.{insert, deref, set_val, find}
use c_async_await.Ring.{push_back, pop_front, peek_front, push_front}
use c_async_await.Pool.{ready, running, get_task, take_slot}
use c_async_await.Scheduler.{
  World, start_new_task, async_switch, current_task_handle, finish_current_task,
}
use c_async_await.GraphScheduler.{
  Graph, graph_vtable, graph_scheduler, use_graph_scheduler, graph_register_task, park,
}
use c_async_await.GraphScheduler.Register.{entry, new_task}
use c_async_await.Async.{run_async_main, async_call, async_return, await, parked}
use c_async_await.Async.Running.{IsRunning}
use c_async_await.Async.Wait.{await-IsRunning_queued}
use c_async_await.Async.Return.{async_return-IsRunning_parent}
use c_async_await.Tests.{value_or, landed, ok_or, landed_ok}
use c_async_await.Tests.Programs.{
  main_world, two_world, table2, first_task, second_task, two_world-IsRunning,
}

-- It waits for the second, which runs.
abbrev pub waiting_world : World Graph
unfolding await
waiting_world = (value_or (two_world, parked 0) (await graph_scheduler two_world 70000 2)).0

pub waiting_run : await graph_scheduler two_world 70000 2 ≡ some (waiting_world, parked 2)
unfolding run_async_main async_call start_new_task graph_vtable insert use_graph_scheduler deref
    set_val push_back async_switch take_slot graph_register_task get_task main_world two_world await
    graph_scheduler park find pop_front peek_front waiting_world current_task_handle
    finish_current_task
waiting_run = refl

await-IsRunning_queued_example :
    (w' : World Graph) × (await graph_scheduler two_world 70000 2 ≡ some (w', parked 2))
    × IsRunning w' 2 [] table2 []
    × (w'.sched.heap 2 ≡ some (record (new_task 2) { parent = some 1 }))
unfolding run_async_main async_call start_new_task graph_vtable insert use_graph_scheduler deref
    set_val push_back async_switch take_slot graph_register_task get_task main_world two_world
await-IsRunning_queued_example =
    await-IsRunning_queued two_world-IsRunning 2 (omega arith) (entry 2 2) 2 (new_task 2) refl refl
      refl refl refl (omega arith) 70000 (omega arith) refl refl

waiting_world-IsRunning : IsRunning waiting_world 2 [] table2 []
unfolding run_async_main async_call start_new_task graph_vtable insert use_graph_scheduler deref
    set_val push_back async_switch take_slot graph_register_task get_task main_world two_world
waiting_world-IsRunning =
    let (w, ran, r, _) =
      await-IsRunning_queued two_world-IsRunning 2 (omega arith) (entry 2 2) 2 (new_task 2) refl
        refl refl refl refl (omega arith) 70000 (omega arith) refl refl in
    landed (λ w. IsRunning w.0 2 [] table2 []) waiting_run ((w, parked 2), ran, r)

-- It returns 42, and the first goes on with that.
abbrev back_world : World Graph
unfolding async_return
back_world = ok_or waiting_world (async_return graph_vtable waiting_world 42)

back_run : async_return graph_vtable waiting_world 42 ≡ ok back_world
unfolding run_async_main async_call start_new_task graph_vtable insert use_graph_scheduler deref
    set_val push_back async_switch take_slot graph_register_task get_task main_world two_world
    waiting_world await graph_scheduler park find pop_front peek_front async_return push_front
    back_world current_task_handle finish_current_task
back_run = refl

async_return-IsRunning_parent_example :
    (w' : World Graph) × (async_return graph_vtable waiting_world 42 ≡ ok w')
    × (w'.on_cpu ≡ 1)
    × IsRunning w' 1 [] table2 []
    × (get_task w'.pool 2 ≡ some (second_task 278528 42 ready))
unfolding run_async_main async_call start_new_task graph_vtable insert use_graph_scheduler deref
    set_val push_back async_switch take_slot graph_register_task get_task main_world two_world
    waiting_world await graph_scheduler park find pop_front peek_front current_task_handle
    finish_current_task
async_return-IsRunning_parent_example =
    async_return-IsRunning_parent waiting_world-IsRunning (record (new_task 2) { parent = some 1 })
      (second_task 278528 8 running) refl refl (omega arith) refl 42 1
      (record (new_task 1) { in_queue = false }) (entry 1 1) (first_task running) refl refl refl
      refl refl (omega arith) refl
      (record { not_free = refl; not_ready = refl; stacked = omega arith })

back_world-IsRunning : IsRunning back_world 1 [] table2 []
unfolding run_async_main async_call start_new_task graph_vtable insert use_graph_scheduler deref
    set_val push_back async_switch take_slot graph_register_task get_task main_world two_world
    waiting_world await graph_scheduler park find pop_front peek_front current_task_handle
    finish_current_task
back_world-IsRunning =
    let (w, ran, _, r, _) =
      async_return-IsRunning_parent waiting_world-IsRunning
        (record (new_task 2) { parent = some 1 }) (second_task 278528 8 running) refl refl
        (omega arith) refl 42 1 (record (new_task 1) { in_queue = false }) (entry 1 1)
        (first_task running) refl refl refl refl refl (omega arith) refl
        (record { not_free = refl; not_ready = refl; stacked = omega arith }) in
    landed_ok (λ w. IsRunning w 1 [] table2 []) back_run (w, ran, r)
