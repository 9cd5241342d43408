-- ===== src/Tests/Programs/Many.antt =====
-- The first coroutine asks for the second among several, before it has run.
use c_async_await.Base.{ℕ, ◌≡◌, ◌⊎◌, refl, true, false, some, [], ◌∷◌, List, arith, get_elem?}
use c_async_await.HashMap.{insert, deref, set_val}
use c_async_await.Ring.{push_back}
use c_async_await.Pool.{init, is_ready, Task, get_task, take_slot}
use c_async_await.Scheduler.{World, start_new_task, async_switch}
use c_async_await.GraphScheduler.{Graph, graph_vtable, use_graph_scheduler, graph_register_task}
use c_async_await.Async.{run_async_main, async_call, value, pending, await_any, await_all}
use c_async_await.Program.{IsProgram}
use c_async_await.Program.Any.{NoneBefore, NoneReady, await_any-IsProgram}
use c_async_await.Program.All.{Collected, AllReady, SomeBusy, await_all-IsProgram}
use c_async_await.Tests.Programs.{two_world, table2, second_task}
use c_async_await.Tests.Programs.Runs.{two_world-IsProgram}

abbrev waiting_for : List Task
waiting_for = second_task 278528 8 init ∷ []

await_any-IsProgram_example :
    ((j : ℕ) × (t : Task) × (await_any graph_vtable two_world 70000 (2 ∷ [])
        ≡ some (two_world, value (j, t.argument)))
      × (get_elem? waiting_for j ≡ some t)
      × (is_ready t.state ≡ true)
      × NoneBefore j waiting_for)
    ⊎ ((w' : World Graph) × (await_any graph_vtable two_world 70000 (2 ∷ []) ≡ some (w', pending))
        × NoneReady waiting_for
        × IsProgram w' 2 (1 ∷ []) (λ _. false) table2)
unfolding run_async_main async_call start_new_task graph_vtable insert use_graph_scheduler deref
    set_val push_back async_switch take_slot graph_register_task get_task
await_any-IsProgram_example =
    await_any-IsProgram two_world-IsProgram 70000 (2 ∷ []) waiting_for (omega arith) (refl, refl)

await_all-IsProgram_example :
    (out : List ℕ) × Collected 0 waiting_for (0 ∷ []) out
    × (((await_all graph_vtable two_world 70000 (2 ∷ []) (some (0 ∷ []))
            ≡ some (two_world, some out, value tt))
          × AllReady waiting_for)
        ⊎ ((w' : World Graph) × (await_all graph_vtable two_world 70000 (2 ∷ []) (some (0 ∷ []))
              ≡ some (w', some out, pending))
            × SomeBusy waiting_for
            × IsProgram w' 2 (1 ∷ []) (λ _. false) table2))
unfolding run_async_main async_call start_new_task graph_vtable insert use_graph_scheduler deref
    set_val push_back async_switch take_slot graph_register_task get_task
await_all-IsProgram_example =
    await_all-IsProgram two_world-IsProgram 70000 (2 ∷ []) waiting_for (0 ∷ []) (omega arith)
      (refl, refl) (omega arith)
