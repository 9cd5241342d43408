-- ===== src/Scheduler.antt =====
-- The scheduler interface of src/scheduler.h and the functions of src/scheduler.c over it, with
-- `async_switch` of src/switch.c and `async_skip` of src/async.c.
pub mod Switch
use c_async_await.Base.{
  ℕ, zero, suc, ◌+◌, ◌-◌, ◌*◌, Bool, true, false, Option, none, some, List, [], ◌∷◌, ◌++◌, ltb, leb,
  ◌==◌, if◌then◌else◌, ◌>>=◌, ◌>>◌, guard, int_max, not, length, get_elem?, set, Outcome, ok, exit,
  fault, lift, bind,
}
use c_async_await.Pool.{
  State, init, ready, running, free, is_free, is_ready, is_init, Handle, Task, TaskPool, empty_pool,
  get_task, put_task, take_slot, release_slot,
}

-- The function pointers of a scheduler whose `data` is an `S`, but for `wait_ready`. An out
-- parameter is a result; `poll_task` reads the global pool.
pub record SchedulerVTable (S : Type 0) : Type 0 where
  pub register_task : S → Handle → Option S
  pub finish_task : S → Option (Handle × Handle × S)
  pub free_task : S → Handle → Option S
  pub poll_task : TaskPool → Handle → Option State
  pub current_task : S → Option Handle
  pub next_task : S → Option (Handle × S)
  pub cleanup : S → S

-- The global state, and the coroutine that has the processor (0 before the first).
pub record World (S : Type 0) : Type 0 where
  pub pool : TaskPool
  pub sched : S
  pub on_cpu : Handle

-- `async_switch(from, to)`, up to the point where `to` runs. `rsp` is the stack pointer that is
-- saved for `from`; with no `from` nothing is saved.
unfoldable pub save_stack : TaskPool → Handle → ℕ → Option TaskPool
unfolding get_task
save_stack p from rsp =
    if from == 0
    then some p
    else do t ← get_task p from; some (put_task p from (record t { stack_ptr = rsp }))

unfoldable pub enter_task : TaskPool → Handle → Option TaskPool
unfolding get_task
enter_task p to = do
  t ← get_task p to
  guard (not (is_free t.state))
  guard (not (is_ready t.state))
  guard (not (t.stack_ptr == 0))
  some (if is_init t.state then put_task p to (record t { state = running }) else p)

module _ {S : Type 0} where
  unfoldable pub async_switch : World S → ℕ → Handle → Handle → Option (World S)
  unfolding save_stack enter_task
  async_switch w rsp from to = do
    guard (not (to == 0))
    guard (not (from == to))
    p ← enter_task w.pool to
    p' ← save_stack p from rsp
    some (record { pool = p'; sched = w.sched; on_cpu = to })

module _ {S : Type 0} (vtable : SchedulerVTable S) where
  unfoldable pub start_new_task : Option ℕ → ℕ → ℕ → World S → Outcome (World S × Handle)
  unfolding take_slot
  start_new_task mmap fn argument w = bind (take_slot mmap fn argument w.pool) λ r.
      bind (lift (vtable.register_task w.sched r.1))
        λ s. ok (record w { pool = r.0; sched = s }, r.1)

  unfoldable pub current_task_handle : World S → Option Handle
  current_task_handle w = vtable.current_task w.sched

  unfoldable pub next_task_handle : World S → Option (Handle × World S)
  next_task_handle w = do (h, s) ← vtable.next_task w.sched; some (h, record w { sched = s })

  unfoldable pub finish_current_task : World S → Option (Handle × Handle × World S)
  finish_current_task w = do
    (fin, next, s) ← vtable.finish_task w.sched
    some (fin, next, record w { sched = s })

  -- The state that the scheduler reports is dropped.
  unfoldable pub poll_state : World S → Handle → Option State
  unfolding current_task_handle get_task
  poll_state w h = do
    _ ← current_task_handle w
    _ ← vtable.poll_task w.pool h
    t ← get_task w.pool h
    some t.state

  unfoldable pub free_task : World S → Handle → Option (World S)
  unfolding release_slot
  free_task w h = do
    guard (not (h == 0))
    s ← vtable.free_task w.sched h
    p ← release_slot w.pool h
    some (record w { pool = p; sched = s })

  -- The stacks are not unmapped.
  unfoldable pub async_deinit : World S → World S
  async_deinit w = record w { pool = empty_pool; sched = vtable.cleanup w.sched }

  unfoldable pub async_skip : World S → ℕ → Option (World S)
  unfolding current_task_handle next_task_handle get_task async_switch
  async_skip w rsp = do
    current ← current_task_handle w
    (next, w') ← next_task_handle w
    _ ← get_task w'.pool current
    if current == next then some w' else async_switch w' rsp current next

-- How a call of `wait_ready` leaves off: it returned, or it gave the processor away and goes on by
-- `resume` when the coroutine gets it back. `suspended` carries the local variable that the rest
-- needs: the handle waited for, or the pointer to its node.
pub data Waited : Type 0 where
  returned : Waited
  suspended : ℕ → Waited

-- `wait_ready` of the interface, cut at the switch that it makes. `resume` is given the caller's
-- handle and the local variable.
pub record Scheduler (S : Type 0) : Type 0 where
  pub vtable : SchedulerVTable S
  pub wait_ready : World S → ℕ → Handle → Option (World S × Waited)
  pub resume : World S → ℕ → Handle → ℕ → Option (World S × Waited)
