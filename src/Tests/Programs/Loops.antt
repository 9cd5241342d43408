-- ===== src/Tests/Programs/Loops.antt =====
-- The coroutines of examples/echo_async.c, from the program of the first coroutine.
use c_async_await.Base.{
  ℕ, ◌+◌, ◌≡◌, ◌≤◌, ◌<◌, refl, true, false, none, some, [], ◌∷◌, arith, ok, length, Option, Outcome,
}
use mathlib.Core.Path.{subst}
use c_async_await.HashMap.{insert, deref, set_val}
use c_async_await.Ring.{push_back}
use c_async_await.Pool.{Handle, Task, get_task, take_slot}
use c_async_await.Pool.FreeList.{IsStarted}
use c_async_await.Scheduler.{World, start_new_task, async_switch}
use c_async_await.GraphScheduler.{
  Graph, graph_vtable, graph_scheduler, use_graph_scheduler, graph_register_task, verify_queue,
}
use c_async_await.GraphScheduler.Invariant.{Table}
use c_async_await.GraphScheduler.Verify.{verify_queue-IsSound}
use c_async_await.Async.{run_async_main, async_call, async_orphan, parked}
use c_async_await.Program.{IsProgram, HasSpace}
use c_async_await.Program.Keep.{with_waiting}
use c_async_await.Program.Orphan.{orphaned_task}
use c_async_await.AsyncServer.{accept_turn, async_main}
use c_async_await.AsyncServer.Keep.{accept_turn-IsProgram}
use c_async_await.AsyncServer.Main.{Started, async_main-IsProgram}
use c_async_await.Tests.{value_or, ok_or}
use c_async_await.Tests.Programs.{main_world, two_world, table2, two_world-IsRunning}
use c_async_await.Tests.Programs.Runs.{main_world-IsProgram, main_space}

verify_queue-IsSound_example :
    (two_world.sched.queue.start ≤ two_world.sched.queue.end
      → verify_queue two_world.sched ≡ some tt)
    × (two_world.sched.queue.end < two_world.sched.queue.start
        → verify_queue two_world.sched ≡ none)
verify_queue-IsSound_example = verify_queue-IsSound two_world-IsRunning.sound

accept_turn-IsProgram_example :
    (w' : World Graph) × (accept_turn graph_vtable (some 262144) 300 9 true main_world ≡ ok w')
    × IsProgram w' 1 (2 ∷ []) (λ _. false) table2
    × ((t : Task) × (get_task w'.pool 2 ≡ some (orphaned_task t)) × IsStarted t 2 300 9)
unfolding run_async_main async_call start_new_task graph_vtable insert use_graph_scheduler deref
    set_val push_back async_switch take_slot graph_register_task get_task main_world
accept_turn-IsProgram_example =
    accept_turn-IsProgram main_world-IsProgram 262144 300 9 (omega arith) main_space (omega arith)

-- The world with `server_stats` queued, as an orphan.
abbrev stats_world : World Graph
unfolding async_call
stats_world = (ok_or (main_world, 0) (async_call graph_vtable (some 262144) 200 0 main_world)).0

abbrev orphan_world : World Graph
unfolding async_orphan
orphan_world = value_or main_world (async_orphan graph_vtable stats_world 2)

stats_run : async_call graph_vtable (some 262144) 200 0 main_world ≡ ok (stats_world, 2)
unfolding run_async_main async_call start_new_task graph_vtable insert use_graph_scheduler deref
    set_val push_back async_switch take_slot graph_register_task get_task main_world stats_world
stats_run = refl

orphan_run : async_orphan graph_vtable stats_world 2 ≡ some orphan_world
unfolding run_async_main async_call start_new_task graph_vtable insert use_graph_scheduler deref
    set_val push_back async_switch take_slot graph_register_task get_task main_world stats_world
    async_orphan orphan_world
orphan_run = refl

orphan_space : HasSpace orphan_world
unfolding run_async_main async_call start_new_task graph_vtable insert use_graph_scheduler deref
    set_val push_back async_switch take_slot graph_register_task get_task main_world stats_world
    async_orphan orphan_world
orphan_space = record {
  slots = omega arith;
  handles = omega arith;
  cells = omega arith;
  nodes = omega arith;
  places = omega arith;
}

same_ok {ℓ} :
    {A : Type ℓ} {o : Outcome (A × Handle)} {x y : A} {h k : Handle}
    → o ≡ ok (x, h)
    → o ≡ ok (y, k)
    → x ≡ y
same_ok e e' = ground (arith, e, e')

same_some {ℓ} : {A : Type ℓ} {o : Option A} {x y : A} → o ≡ some x → o ≡ some y → x ≡ y
same_some e e' = ground (arith, e, e')

-- Whatever the first call leaves is that world.
space_later :
    (w₁ w₂ : World Graph)
    → async_call graph_vtable (some 262144) 200 0 main_world
      ≡ ok (w₁, length main_world.pool.tasks + 1)
    → async_orphan graph_vtable w₁ (length main_world.pool.tasks + 1) ≡ some w₂
    → HasSpace w₂
unfolding main_world run_async_main async_call start_new_task graph_vtable use_graph_scheduler
    take_slot async_switch insert deref set_val push_back
space_later w₁ w₂ e o =
    let first : stats_world ≡ w₁ = same_ok stats_run e in
    let o' : async_orphan graph_vtable w₁ 2 ≡ some orphan_world =
      subst (λ w. async_orphan graph_vtable w 2 ≡ some orphan_world) first orphan_run in
    subst HasSpace (same_some o' o) orphan_space

async_main-IsProgram_example :
    (w' : World Graph) × (c : ℕ) × (f' : Table) × (async_main graph_scheduler
        (some
          (record { socket = none; binds = false } ∷ record { socket = some 6; binds = true } ∷ []))
        true
        true
        (3 ∷ [])
        (some 262144)
        (some 524288)
        200
        300
        4096
        70000
        main_world
      ≡ ok (w', parked c))
    × IsProgram w' 2 (c ∷ []) (with_waiting 1 (λ _. false)) f'
    × Started w' 200 300 4096 1 2 c
unfolding run_async_main async_call start_new_task graph_vtable insert use_graph_scheduler deref
    set_val push_back async_switch take_slot graph_register_task get_task main_world
async_main-IsProgram_example =
    async_main-IsProgram main_world-IsProgram 262144 524288 200 300 4096 70000 (omega arith)
      (omega arith) (omega arith) main_space space_later
      (record { socket = none; binds = false } ∷ []) (record { socket = some 6; binds = true }) [] 6
      (3 ∷ []) refl refl refl
