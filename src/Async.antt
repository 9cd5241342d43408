-- ===== src/Async.antt =====
-- src/async.c: the calls that a program makes, over any scheduler. `rsp` is the stack pointer that
-- a switch saves.
pub mod Running
pub mod Skip
pub mod Return
pub mod Wait
pub mod Start
pub mod Leave
pub mod Orphan
use c_async_await.Base.{
  ℕ, zero, suc, ◌+◌, ◌-◌, ◌*◌, ◌%◌, ◌^◌, Bool, true, false, Option, none, some, List, [], ◌∷◌, ◌++◌,
  ltb, leb, ◌==◌, if◌then◌else◌, ◌>>=◌, ◌>>◌, guard, not, length, get_elem?, set, Outcome, ok, exit,
  fault, lift, bind,
}
use c_async_await.Pool.{State, ready, is_ready, Handle, Task, TaskPool, get_task, put_task}
use c_async_await.Scheduler.{
  SchedulerVTable, Scheduler, World, start_new_task, poll_state, current_task_handle,
  finish_current_task, free_task, async_deinit, async_switch, async_skip, Waited, returned,
  suspended,
}

-- How a call that waits leaves off: with a result, or suspended until the coroutine runs again.
pub data Pending (A : Type 0) : Type 0 where
  value : A → Pending A
  pending : Pending A

-- The same for `await`, whose rest needs the local variable of `wait_ready`.
pub data Awaited : Type 0 where
  got : ℕ → Awaited
  parked : ℕ → Awaited

-- `exit((int)(long)data)`
abbrev pub exit_code : ℕ → ℕ
exit_code argument = argument % 2 ^ 32

module _ {S : Type 0} (vtable : SchedulerVTable S) where
  unfoldable pub async_free : World S → Handle → Option (World S)
  async_free w h = free_task vtable w h

  unfoldable pub async_orphan : World S → Handle → Option (World S)
  async_orphan w h = do
    t ← get_task w.pool h
    some (record w { pool = put_task w.pool h (record t { orphaned = true }) })

  unfoldable pub async_call : Option ℕ → ℕ → ℕ → World S → Outcome (World S × Handle)
  async_call mmap fn argument w = start_new_task vtable mmap fn argument w

  -- `run_async_main` up to the point where the first coroutine runs.
  unfoldable pub run_async_main : Option ℕ → ℕ → ℕ → World S → Outcome (World S)
  unfolding async_call
  run_async_main mmap main_fn argument w =
      bind (async_call mmap main_fn argument w)
        λ r. bind (lift (guard (r.1 == 1))) λ _. lift (async_switch r.0 0 0 r.1)

  -- The result is that of the task that runs next.
  unfoldable pub async_return : World S → ℕ → Outcome (World S)
  unfolding async_free
  async_return w result = bind (lift (current_task_handle vtable w)) λ cur.
      if cur == 1
      then exit (exit_code result)
      else bind (lift (finish_current_task vtable w)) λ r.
        if r.0 == 1
        then exit (exit_code result)
        else lift (do
          let w₁ = r.2
          t ← get_task w₁.pool r.0
          let t' = record t { argument = result; state = ready }
          let w₂ = record w₁ { pool = put_task w₁.pool r.0 t' }
          w₃ ← if t'.orphaned then async_free w₂ r.0 else some w₂
          async_switch w₃ 0 0 r.1)

  -- One pass over the handles: the first that is ready, with its place and its result.
  unfoldable pub first_ready : World S → ℕ → List Handle → Option (Option (ℕ × ℕ))
  first_ready w i [] = some none
  first_ready w i (h ∷ hs) = do
    guard (not (h == 0))
    st ← poll_state vtable w h
    elim (is_ready st) [
      | true ↦ get_task w.pool h >>= λ t. some (some (i, t.argument))
      | false ↦ first_ready w (i + 1) hs
    ]

  -- One turn of the loop of `await_any`.
  unfoldable pub await_any : World S → ℕ → List Handle → Option (World S × Pending (ℕ × ℕ))
  unfolding first_ready
  await_any w rsp handles = do
    hit ← first_ready w 0 handles
    elim hit [
      | some r ↦ some (w, value r)
      | none ↦ async_skip vtable w rsp >>= λ w'. some (w', pending)
    ]

  -- `if (results) results[i] = t->data`: NULL is `none`, a place outside the array a fault.
  unfoldable pub write_result : Option (List ℕ) → ℕ → ℕ → Option (Option (List ℕ))
  write_result none i result = some none
  write_result (some results) i result = do
    guard (ltb i (length results))
    some (some (set results i result))

  -- One pass of `await_all`: the number of handles that are ready, and the array with their results.
  unfoldable pub collect :
      World S → ℕ → List Handle → Option (List ℕ) → Option (ℕ × Option (List ℕ))
  unfolding write_result
  collect w i [] results = some (0, results)
  collect w i (h ∷ hs) results = do
    guard (not (h == 0))
    st ← poll_state vtable w h
    t ← get_task w.pool h
    written ← if is_ready st then write_result results i t.argument else some results
    (n, out) ← collect w (i + 1) hs written
    some (if is_ready st then suc n else n, out)

  -- One turn of the loop of `await_all`; the array is kept across turns.
  unfoldable pub await_all :
      World S
      → ℕ
      → List Handle
      → Option (List ℕ)
      → Option (World S × Option (List ℕ) × Pending (Unit {0}))
  unfolding collect
  await_all w rsp handles results = do
    (n, out) ← collect w 0 handles results
    if n == length handles
        then some (w, out, value tt)
        else async_skip vtable w rsp >>= λ w'. some (w', out, pending)

module _ {S : Type 0} (scheduler : Scheduler S) where
  -- The end of `await`, when `wait_ready` has returned.
  unfoldable pub awaited : World S → Handle → Option ℕ
  awaited w h = do t ← get_task w.pool h; some t.argument

  -- `await` up to its switch, or to its result.
  unfoldable pub await : World S → ℕ → Handle → Option (World S × Awaited)
  unfolding awaited
  await w rsp h = do
    (w', left) ← scheduler.wait_ready w rsp h
    elim left [
      | returned ↦ awaited w' h >>= λ r. some (w', got r)
      | suspended local ↦ some (w', parked local)
    ]

  -- `await` when its coroutine runs again.
  unfoldable pub await_resume : World S → ℕ → Handle → Handle → ℕ → Option (World S × Awaited)
  unfolding awaited
  await_resume w rsp caller h local = do
    (w', left) ← scheduler.resume w rsp caller local
    elim left [
      | returned ↦ awaited w' h >>= λ r. some (w', got r)
      | suspended local' ↦ some (w', parked local')
    ]
