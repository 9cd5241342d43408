-- ===== src/QueueScheduler.antt =====
-- src/queue_scheduler.c: every task that has not finished is in one queue, the running one in front.
pub mod Turns
use c_async_await.Base.{
  ℕ, zero, suc, ◌+◌, ◌-◌, ◌*◌, Bool, true, false, Option, none, some, List, [], ◌∷◌, ◌++◌, ltb, leb,
  ◌==◌, if◌then◌else◌, ◌>>=◌, ◌>>◌, guard, not, get_elem?,
}
use c_async_await.Ring.{Ring, empty, push_back, pop_front, peek_front}
use c_async_await.Pool.{State, is_ready, Handle, TaskPool}
use c_async_await.Scheduler.{
  SchedulerVTable, Scheduler, World, poll_state, async_skip, Waited, returned, suspended,
}

abbrev pub Queue : Type 0
Queue = Ring Handle

unfoldable pub register_task : Queue → Handle → Option Queue
register_task q h = push_back q h

unfoldable pub finish_task : Queue → Option (Handle × Handle × Queue)
finish_task q = do (cur, q') ← pop_front q; next ← peek_front q'; some (cur, next, q')

unfoldable pub queue_free_task : Queue → Handle → Option Queue
queue_free_task q h = some q

unfoldable pub poll_task : TaskPool → Handle → Option State
poll_task p pollee = do guard (not (pollee == 0)); t ← get_elem? p.tasks (pollee - 1); some t.state

unfoldable pub current_task : Queue → Option Handle
current_task q = peek_front q

unfoldable pub next_task : Queue → Option (Handle × Queue)
next_task q = do (h, q₁) ← pop_front q; q₂ ← push_back q₁ h; h' ← peek_front q₂; some (h', q₂)

abbrev pub cleanup : Queue → Queue
cleanup q = empty

unfoldable pub vtable : SchedulerVTable Queue
unfolding register_task finish_task queue_free_task poll_task current_task next_task
vtable = record {
  register_task = register_task;
  finish_task = finish_task;
  free_task = queue_free_task;
  poll_task = poll_task;
  current_task = current_task;
  next_task = next_task;
  cleanup = cleanup;
}

-- One round of the loop of `busy_wait_ready`.
unfoldable pub busy_wait_ready : World Queue → ℕ → Handle → Option (World Queue × Waited)
unfolding vtable
busy_wait_ready w rsp h = do
  st ← poll_state vtable w h
  if is_ready st
      then some (w, returned)
      else async_skip vtable w rsp >>= λ w'. some (w', suspended h)

unfoldable pub scheduler : Scheduler Queue
unfolding busy_wait_ready
scheduler = record {
  vtable = vtable;
  wait_ready = busy_wait_ready;
  resume = λ w rsp caller h. busy_wait_ready w rsp h;
}
