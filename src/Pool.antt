-- ===== src/Pool.antt =====
-- The task pool of src/scheduler.c and src/scheduler.h: the slots that coroutines live in, and the
-- free list that is threaded through them by handles.
pub mod FreeList
pub mod Update
use c_async_await.Base.{
  ℕ, zero, suc, ◌+◌, ◌-◌, ◌*◌, Bool, true, false, Option, none, some, List, [], ◌∷◌, ◌++◌, ltb, leb,
  ◌==◌, if◌then◌else◌, ◌>>=◌, ◌>>◌, guard, int_max, not, length, get_elem?, set, Outcome, ok, exit,
  fault, lift, bind,
}

pub data State : Type 0 where
  init ready running free : State

abbrev pub is_free : State → Bool
is_free free = true
is_free _ = false

abbrev pub is_ready : State → Bool
is_ready ready = true
is_ready _ = false

abbrev pub is_init : State → Bool
is_init init = true
is_init _ = false

-- `idx`: the slot's place in the pool, counted from 1; 0 is no task.
abbrev pub Handle : Type 0
Handle = ℕ

-- Pointers are addresses, 0 for NULL; `argument` is the field `data`.
pub record Task : Type 0 where
  pub stack_base : ℕ
  pub stack_ptr : ℕ
  pub fn : ℕ
  pub argument : ℕ
  pub state : State
  pub orphaned : Bool
  pub handle : Handle

-- `tasks` holds the `len` slots in use; those between `len` and `cap` are written before they are
-- read.
pub record TaskPool : Type 0 where
  pub tasks : List Task
  pub cap : ℕ
  pub free_task : Handle

-- `(TaskPool){0}`
abbrev pub empty_pool : TaskPool
empty_pool = record { tasks = []; cap = 0; free_task = 0 }

abbrev pub stack_size : ℕ
stack_size = 16384

unfoldable pub get_task : TaskPool → Handle → Option Task
get_task p h = do guard (ltb 0 h); guard (leb h (length p.tasks)); get_elem? p.tasks (h - 1)

-- A write to the task that `get_task(h)` points to.
abbrev pub put_task : TaskPool → Handle → Task → TaskPool
put_task p h t = record p { tasks = set p.tasks (h - 1) t }

-- The branch of `start_new_task` that takes a slot at the end of the pool. `mmap` is the address of
-- the new stack, `none` for MAP_FAILED.
unfoldable pub new_slot : Option ℕ → ℕ → ℕ → TaskPool → Outcome (TaskPool × Handle)
new_slot mmap fn argument p =
    let full = length p.tasks == p.cap in
    let new_cap = p.cap * 2 + 10 in
    bind (lift (guard (if full then leb new_cap int_max else true))) λ _. elim mmap [
      | none ↦ exit 1
      | some base ↦
          let h = length p.tasks + 1 in
          let t : Task = record {
            stack_base = base;
            stack_ptr = base + stack_size;
            fn = fn;
            argument = argument;
            state = init;
            orphaned = false;
            handle = h;
          } in
          ok (record p { tasks = p.tasks ++ t ∷ []; cap = if full then new_cap else p.cap }, h)
    ]

-- The branch that takes the first slot of the free list. `orphaned` is not written.
unfoldable pub reuse_slot : ℕ → ℕ → TaskPool → Option (TaskPool × Handle)
reuse_slot fn argument p = do
  let h = p.free_task
  guard (ltb 0 h)
  guard (leb h (length p.tasks))
  t ← get_elem? p.tasks (h - 1)
  guard (is_free t.state)
  guard (not (t.stack_base == 0))
  let t' = record t {
    state = init;
    handle = h;
    fn = fn;
    argument = argument;
    stack_ptr = t.stack_base + stack_size;
  }
  some (record p { tasks = set p.tasks (h - 1) t'; free_task = t.handle }, h)

-- `start_new_task` up to the call of the scheduler.
unfoldable pub take_slot : Option ℕ → ℕ → ℕ → TaskPool → Outcome (TaskPool × Handle)
unfolding new_slot reuse_slot
take_slot mmap fn argument p =
    if p.free_task == 0 then new_slot mmap fn argument p else lift (reuse_slot fn argument p)

-- `free_task` after the call of the scheduler: the slot goes first on the free list.
unfoldable pub release_slot : TaskPool → Handle → Option TaskPool
unfolding get_task
release_slot p h = do
  t ← get_task p h
  some (record (put_task p h (record t { state = free; handle = p.free_task })) { free_task = h })
