-- ===== src/Scheduler/Switch.antt =====
-- What `async_switch` does to the pool, and what it refuses.
use c_async_await.Base.{
  ℕ, ◌<◌, ◌≡◌, ◌≢◌, refl, sym, true, false, Option, none, some, List, ◌==◌, if◌then◌else◌, arith,
  inl, inr, Bool-cases, ◌⊎◌,
}
use c_async_await.Pool.{
  running, is_free, is_ready, is_init, Handle, Task, TaskPool, get_task, put_task,
}
use c_async_await.Pool.FreeList.{IsPool, get_task-some}
use c_async_await.Pool.Update.{get_task-put_task, put_task-IsPool}
use c_async_await.Scheduler.{World, save_stack, enter_task, async_switch}

-- A task that may be switched to: it has not finished, is not free and has a stack.
pub record CanRun (t : Task) : Type 0 where
  pub not_free : is_free t.state ≡ false
  pub not_ready : is_ready t.state ≡ false
  pub stacked : 0 < t.stack_ptr

-- The task that is entered: the first time it goes from INIT to RUNNING.
abbrev pub entered : Task → Task
entered t = if is_init t.state then record t { state = running } else t

-- The task of `k` after a switch from a task `u` to a task `t`.
abbrev pub task_after : ℕ → Handle → Task → Handle → Task → Handle → Option Task → Option Task
task_after rsp from u to t k old =
    if from == k
    then some (record u { stack_ptr = rsp })
    else if to == k
    then some (entered t)
    else old

entered_same :
    (t : Task) → ((entered t).handle ≡ t.handle) × ((entered t).stack_base ≡ t.stack_base)
entered_same t = ground arith

entered_free : (t : Task) → is_free t.state ≡ false → is_free (entered t).state ≡ is_free t.state
entered_free t nf = ground arith

module _ {p : TaskPool} {fl : List Handle} (s : IsPool p fl) (to : Handle) (t : Task)
    (at : get_task p to ≡ some t) (run : CanRun t) where
  pub enter_task-IsPool :
      (p' : TaskPool) × (enter_task p to ≡ some p')
      × IsPool p' fl
      × ((k : Handle) → get_task p' k ≡ (if to == k then some (entered t) else get_task p k))
  unfolding enter_task
  enter_task-IsPool = elim (Bool-cases (is_init t.state)) [
    | inl e ↦
        let t' : Task = record t { state = running } in
        (
          put_task p to t',
          ground (arith, run.not_free, run.not_ready, run.stacked),
          put_task-IsPool p to t t' at (sym run.not_free) refl s refl,
          λ k. ground (arith, get_task-put_task p to t t' at k),
        )
    | inr e ↦ (p, ground (arith, run.not_free, run.not_ready, run.stacked), s, λ k. ground arith)
  ]

module _ {S : Type 0} (w : World S) {fl : List Handle} (s : IsPool w.pool fl) (rsp : ℕ)
    (to : Handle) (t : Task) (at : get_task w.pool to ≡ some t) where
  -- In a well formed pool, a switch from one task to another that has a stack and is neither FREE
  -- nor READY succeeds: the other has the processor and is RUNNING if it was INIT, the first has
  -- its stack pointer saved, all other tasks and the scheduler's data stay, and the pool stays well
  -- formed.
  pub async_switch-IsPool :
      (from : Handle) (u : Task)
      → get_task w.pool from ≡ some u
      → from ≢ to
      → CanRun t
      → (w' : World S) × (async_switch w rsp from to ≡ some w')
        × (w'.on_cpu ≡ to)
        × (w'.sched ≡ w.sched)
        × IsPool w'.pool fl
        × ((k : Handle) → get_task w'.pool k ≡ task_after rsp from u to t k (get_task w.pool k))
  unfolding async_switch save_stack
  async_switch-IsPool from u atu ne run =
      let (p, entered_p, sp, law) = enter_task-IsPool s to t at run in
      let (pos, _, _) = get_task-some w.pool to t at in
      let (posu, _, _) = get_task-some w.pool from u atu in
      let kept : get_task p from ≡ some u = ground (arith, law from) in
      let u' : Task = record u { stack_ptr = rsp } in
      (
        record { pool = put_task p from u'; sched = w.sched; on_cpu = to },
        ground (arith, entered_p),
        refl,
        refl,
        put_task-IsPool p from u u' kept refl refl sp refl,
        λ k. ground (arith, get_task-put_task p from u u' kept k, law k),
      )

  -- From a task that is done: no stack pointer is saved.
  pub async_switch-IsPool_last :
      CanRun t
      → (w' : World S) × (async_switch w rsp 0 to ≡ some w')
        × (w'.on_cpu ≡ to)
        × (w'.sched ≡ w.sched)
        × IsPool w'.pool fl
        × ((k : Handle)
            → get_task w'.pool k ≡ (if to == k then some (entered t) else get_task w.pool k))
  unfolding async_switch save_stack
  async_switch-IsPool_last run =
      let (p, entered_p, sp, law) = enter_task-IsPool s to t at run in
      let (pos, _, _) = get_task-some w.pool to t at in
      (
        record { pool = p; sched = w.sched; on_cpu = to },
        ground (arith, entered_p),
        refl,
        refl,
        sp,
        law,
      )

  -- In a well formed pool, a switch to a task that is FREE or READY fails an assertion.
  pub async_switch_stopped :
      (from : Handle)
      → (is_free t.state ≡ true) ⊎ (is_ready t.state ≡ true)
      → async_switch w rsp from to ≡ none
  unfolding async_switch enter_task
  async_switch_stopped from stop = ground arith
