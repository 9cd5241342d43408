-- ===== src/Tests/Pools.antt =====
-- A pool of two slots, the first of them free.
use c_async_await.Base.{ℕ, ◌≡◌, ◌≢◌, refl, false, none, some, [], ◌∷◌, arith, ok}
use c_async_await.Pool.{
  State, init, ready, running, free, Handle, Task, TaskPool, get_task, take_slot, release_slot,
}
use c_async_await.Pool.FreeList.{IsPool, IsStarted, take_slot-IsPool_reuse, release_slot-IsPool}
use c_async_await.Scheduler.{World}

abbrev slot : State → Handle → Task
slot st h = record {
  stack_base = 65536;
  stack_ptr = 81920;
  fn = 100;
  argument = 7;
  state = st;
  orphaned = false;
  handle = h;
}

abbrev two_slots : TaskPool
two_slots = record { tasks = slot free 0 ∷ slot running 2 ∷ []; cap = 10; free_task = 1 }

two_slots-IsPool : IsPool two_slots (1 ∷ [])
unfolding get_task
two_slots-IsPool = record {
  chain = (refl, (slot free 0, refl, refl, refl));
  distinct = (refl, tt);
  exact = λ h t e. ground arith;
  own = λ h t e m. ground arith;
  based = λ h t e. ground arith;
  within = omega arith;
}

take_slot-IsPool_reuse_example :
    (old t : Task) × (p' : TaskPool) × (take_slot none 200 8 two_slots ≡ ok (p', 1))
    × (get_task two_slots 1 ≡ some old)
    × (get_task p' 1 ≡ some t)
    × IsStarted t 1 200 8
    × (t.orphaned ≡ old.orphaned)
    × IsPool p' []
    × ((k : Handle) → 1 ≢ k → get_task p' k ≡ get_task two_slots k)
take_slot-IsPool_reuse_example = take_slot-IsPool_reuse 200 8 none 1 [] two_slots-IsPool

release_slot-IsPool_example :
    (p' : TaskPool) × (release_slot two_slots 2 ≡ some p')
    × IsPool p' (2 ∷ 1 ∷ [])
    × (get_task p' 2 ≡ some (record (slot free 2) { handle = 1 }))
    × ((k : Handle) → 2 ≢ k → get_task p' k ≡ get_task two_slots k)
unfolding get_task
release_slot-IsPool_example = release_slot-IsPool 2 (slot running 2) two_slots-IsPool refl refl

-- A running task and one that is to start.
abbrev two_tasks : TaskPool
two_tasks = record { tasks = slot running 1 ∷ slot init 2 ∷ []; cap = 10; free_task = 0 }

two_tasks-IsPool : IsPool two_tasks []
unfolding get_task
two_tasks-IsPool = record {
  chain = refl;
  distinct = tt;
  exact = λ h t e. ground arith;
  own = λ h t e m. ground arith;
  based = λ h t e. ground arith;
  within = omega arith;
}

abbrev bare_world : World ℕ
bare_world = record { pool = two_tasks; sched = 0; on_cpu = 1 }

abbrev ready_world : World ℕ
ready_world = record bare_world {
  pool = record two_tasks { tasks = slot running 1 ∷ slot ready 2 ∷ [] };
}

ready_world-IsPool : IsPool ready_world.pool []
unfolding get_task
ready_world-IsPool = record {
  chain = refl;
  distinct = tt;
  exact = λ h t e. ground arith;
  own = λ h t e m. ground arith;
  based = λ h t e. ground arith;
  within = omega arith;
}
