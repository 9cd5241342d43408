-- ===== src/Tests/Programs/Calls.antt =====
-- The second coroutine, which the first awaits, is that of an `async_recv` of 100 bytes.
use c_async_await.Base.{ℕ, ◌≡◌, refl, none, some, false, [], ok, arith}
use c_async_await.HashMap.{insert, deref, set_val, find}
use c_async_await.Ring.{push_back, pop_front, peek_front}
use c_async_await.Pool.{running, get_task, take_slot}
use c_async_await.Scheduler.{
  World, start_new_task, async_switch, current_task_handle, finish_current_task,
}
use c_async_await.GraphScheduler.{
  Graph, graph_vtable, graph_scheduler, use_graph_scheduler, graph_register_task, park,
}
use c_async_await.GraphScheduler.Register.{new_task}
use c_async_await.Async.{run_async_main, async_call, await}
use c_async_await.Marshal.{Memory, pack, unpack}
use c_async_await.Program.Keep.{with_waiting}
use c_async_await.Sockets.Calls.{call_format, call_args, arg_buf, async_recv_impl}
use c_async_await.Sockets.Coroutine.{Turned, async_recv_impl-Turned}
use c_async_await.Tests.{value_or}
use c_async_await.Tests.Programs.{main_world, two_world, second_task, table2}
use c_async_await.Tests.Programs.Waits.{waiting_world}
use c_async_await.Tests.Programs.Runs.{waiting_world-IsProgram}

-- A call that brings all that was asked for.
abbrev recv : ℕ → ℕ → ℕ → ℕ → ℕ × ℕ
recv fd buf n flags = (n, 0)

abbrev packed : Memory
packed =
    (value_or (arg_buf (λ q. 0), none)
      (pack 256 call_format (call_args 5 700 100 0) (arg_buf (λ q. 0)))).0

async_recv_impl-Turned_example :
    (w' : World Graph) × (async_recv_impl graph_vtable 11 11 recv waiting_world 4096 packed ≡ ok w')
    × Turned waiting_world 2 [] (with_waiting 1 (λ _. false)) table2 2 1 false 100 w'
unfolding run_async_main async_call start_new_task graph_vtable insert use_graph_scheduler deref
    set_val push_back async_switch take_slot graph_register_task get_task main_world two_world await
    graph_scheduler park find pop_front peek_front current_task_handle finish_current_task unpack
    pack
async_recv_impl-Turned_example =
    async_recv_impl-Turned waiting_world-IsProgram (record (new_task 2) { parent = some 1 }) refl
      (second_task 278528 8 running) refl (omega arith) refl 11 11 4096 (omega arith) 1 refl recv
      packed 5 700 100 0 256 refl
