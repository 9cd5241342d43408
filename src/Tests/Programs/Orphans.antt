-- ===== src/Tests/Programs/Orphans.antt =====
-- The first coroutine orphans the second and lets it run; it returns.
use c_async_await.Base.{◌≡◌, refl, false, some, [], ◌∷◌, arith, ok, inl}
use c_async_await.HashMap.{insert, deref, set_val}
use c_async_await.Ring.{push_back, pop_front, peek_front}
use c_async_await.Pool.{init, running, free, Task, get_task, take_slot}
use c_async_await.Scheduler.{
  World, async_skip, start_new_task, async_switch, current_task_handle, next_task_handle,
}
use c_async_await.GraphScheduler.{Graph, graph_vtable, use_graph_scheduler, graph_register_task}
use c_async_await.GraphScheduler.Register.{new_task}
use c_async_await.Async.{run_async_main, async_call, async_orphan, async_return}
use c_async_await.Async.Running.{IsRunning}
use c_async_await.Async.Orphan.{unbound, async_return-IsRunning_orphan}
use c_async_await.Program.{IsProgram}
use c_async_await.Program.Keep.{async_skip-IsProgram}
use c_async_await.Program.Orphan.{orphaned_task, async_orphan-IsProgram}
use c_async_await.Tests.{value_or, landed}
use c_async_await.Tests.Programs.{two_world, table2, second_task}
use c_async_await.Tests.Programs.Runs.{two_world-IsProgram}

abbrev orphan_world : World Graph
unfolding async_orphan
orphan_world = value_or two_world (async_orphan graph_vtable two_world 2)

orphan_run : async_orphan graph_vtable two_world 2 ≡ some orphan_world
unfolding run_async_main async_call start_new_task graph_vtable insert use_graph_scheduler deref
    set_val push_back async_switch take_slot graph_register_task get_task async_orphan orphan_world
orphan_run = refl

orphan_world-IsProgram : IsProgram orphan_world 1 (2 ∷ []) (λ _. false) table2
unfolding run_async_main async_call start_new_task graph_vtable insert use_graph_scheduler deref
    set_val push_back async_switch take_slot graph_register_task get_task
orphan_world-IsProgram =
    let (w, ran, is, _) =
      async_orphan-IsProgram 2 (second_task 278528 8 init) two_world-IsProgram refl in
    landed (λ w. IsProgram w 1 (2 ∷ []) (λ _. false) table2) orphan_run (w, ran, is)

abbrev running_orphan : World Graph
unfolding async_skip
running_orphan = value_or orphan_world (async_skip graph_vtable orphan_world 70000)

skip_run : async_skip graph_vtable orphan_world 70000 ≡ some running_orphan
unfolding run_async_main async_call start_new_task graph_vtable insert use_graph_scheduler deref
    set_val push_back async_switch take_slot graph_register_task get_task async_orphan orphan_world
    async_skip running_orphan current_task_handle next_task_handle pop_front peek_front
skip_run = refl

running_orphan-IsProgram : IsProgram running_orphan 2 (1 ∷ []) (λ _. false) table2
running_orphan-IsProgram =
    let (w, ran, is) = async_skip-IsProgram orphan_world-IsProgram 70000 (omega arith) in
    landed (λ w. IsProgram w 2 (1 ∷ []) (λ _. false) table2) skip_run (w, ran, is)

async_return-IsRunning_orphan_example :
    (w' : World Graph) × (async_return graph_vtable running_orphan 9 ≡ ok w')
    × (w'.on_cpu ≡ 1)
    × IsRunning w' 1 [] (unbound table2 2) (2 ∷ [])
    × ((u : Task) × (get_task w'.pool 2 ≡ some u) × (u.state ≡ free))
unfolding run_async_main async_call start_new_task graph_vtable insert use_graph_scheduler deref
    set_val push_back async_switch take_slot graph_register_task get_task async_orphan orphan_world
    async_skip running_orphan current_task_handle next_task_handle pop_front peek_front
async_return-IsRunning_orphan_example =
    async_return-IsRunning_orphan running_orphan-IsProgram.runs (new_task 2)
      (orphaned_task (second_task 278528 8 running)) refl refl (omega arith) refl 9 (inl refl) 1 []
      refl
