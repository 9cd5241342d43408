-- ===== src/Async/Start.antt =====
-- `run_async_main` and `async_call` under the graph scheduler.
use c_async_await.Base.{
  ℕ, ◌+◌, ◌*◌, ◌^◌, ◌≤◌, ◌<◌, ◌≡◌, ◌≢◌, refl, sym, ◌∙◌, true, Option, none, some, List, [], ◌∷◌,
  ◌++◌, ◌==◌, arith, mem, mem-append, length, inl, inr, Bool-cases, ok, int_max,
}
use c_async_await.Ring.Push.{HasRoom}
use c_async_await.Pool.{running, Handle, Task, TaskPool, empty_pool, get_task, take_slot}
use c_async_await.Pool.FreeList.{
  IsPool, empty_pool-IsPool, IsStarted, take_slot-IsPool_new, take_slot-IsPool_reuse,
}
use c_async_await.GraphScheduler.{
  Node, Graph, graph_vtable, use_graph_scheduler, graph_register_task,
}
use c_async_await.GraphScheduler.Invariant.{
  Table, IsHandle, IsSound, int_diff, int_diff_self, int_diff_zero, use_graph_scheduler-IsSound,
}
use c_async_await.GraphScheduler.Register.{graph_register_task-IsSound, bound, entry, new_task}
use c_async_await.Scheduler.{World, start_new_task}
use c_async_await.Scheduler.Switch.{CanRun, entered, async_switch-IsPool_last}
use c_async_await.Async.{async_call, run_async_main}
use c_async_await.Async.Running.{IsRunning}

-- What `async_call` leaves behind: the caller goes on, and the new task is at the back of the
-- queue, in the state that a task starts in.
abbrev pub IsCalled :
    World Graph → World Graph → ℕ → List ℕ → Table → List Handle → Handle → ℕ → ℕ → Type 0
IsCalled w w' a ps f fl h fn argument =
    IsRunning w' a (ps ++ w.sched.fresh ∷ []) (bound f h w.sched.fresh) fl
    × (w'.on_cpu ≡ w.on_cpu)
    × ((t : Task) × (get_task w'.pool h ≡ some t) × IsStarted t h fn argument)

-- The node of a new task has no parent; the other nodes and tasks are as they were.
abbrev pub IsApart : World Graph → World Graph → Handle → Type 0
IsApart w w' h =
    (w'.sched.heap w.sched.fresh ≡ some (new_task h))
    × ((b : ℕ) → w.sched.fresh ≢ b → w'.sched.heap b ≡ w.sched.heap b)
    × ((k : Handle) → h ≢ k → get_task w'.pool k ≡ get_task w.pool k)

module _ {w : World Graph} {a : ℕ} {ps : List ℕ} {f : Table} {fl fl' : List Handle}
    (r : IsRunning w a ps f fl) (fn argument : ℕ) (h : Handle) (good : IsHandle h)
    (fresh_key : f h ≡ none) (fits : w.sched.handle_to_node.cap * 2 + 10 < 2 ^ 64)
    (lt : w.sched.handle_to_node.node_max < int_max) (room : HasRoom w.sched.queue (a ∷ ps))
    (mmap : Option ℕ) (p' : TaskPool) (t : Task)
    (taken : take_slot mmap fn argument w.pool ≡ ok (p', h)) (at : get_task p' h ≡ some t)
    (started : IsStarted t h fn argument) (based : 0 < t.stack_base) (s' : IsPool p' fl')
    (others : (k : Handle) → h ≢ k → get_task p' k ≡ get_task w.pool k) where
  -- The handle that is new is no key of the table, so no queued task has it.
  called_lem :
      (w' : World Graph) × (async_call graph_vtable mmap fn argument w ≡ ok (w', h))
      × IsCalled w w' a ps f fl' h fn argument
      × IsApart w w' h
  unfolding async_call start_new_task graph_vtable
  called_lem =
      let (g', reg, s, new, old) =
        graph_register_task-IsSound r.sound h good fresh_key fits lt room in
      let absent : (b : ℕ) → mem b (a ∷ ps) ≡ true → w.sched.fresh ≢ b =
        λ b q e. let (n, x, _) = r.sound.live b q in absurd (ground (arith, r.sound.below b)) in
      let can : CanRun t = record {
        not_free = ground arith;
        not_ready = ground arith;
        stacked = omega arith;
      } in
      let inside : (b : ℕ)
          → mem b (a ∷ ps ++ w.sched.fresh ∷ []) ≡ true
          → w.sched.fresh ≢ b
          → mem b (a ∷ ps) ≡ true =
        λ b q ne. ground (arith, mem-append b ps (w.sched.fresh ∷ [])) in
      (
        record w { pool = p'; sched = g' },
        ground (arith, taken, reg),
        (
          record {
            sound = s;
            pool = s';
            owner = λ b n q e. elim (Bool-cases (w.sched.fresh == b)) [
              | inl y ↦
                  let named : n ≡ new_task h = ground arith in
                  rw named
                    (entry h w.sched.fresh, ground (arith, int_diff_self h), ground arith, good)
              | inr y ↦
                  let (d, fd, vd, gn) =
                    r.owner b n (inside b q (ground arith)) (ground (arith, old b)) in
                  let apart : int_diff n.h h ≢ 0 =
                    λ i. let j = int_diff_zero n.h h gn good i in absurd (ground arith) in
                  (d, ground arith, vd, gn)
            ];
            tasks = λ b n q e. elim (Bool-cases (w.sched.fresh == b)) [
              | inl y ↦ let named : n ≡ new_task h = ground arith in rw named (t, at, can)
              | inr y ↦
                  let was : w.sched.heap b ≡ some n = ground (arith, old b) in
                  let member = inside b q (ground arith) in
                  let (d, fd, vd, gn) = r.owner b n member was in
                  let (v, tv, cv) = r.tasks b n member was in
                  let apart : h ≢ n.h = λ i. absurd (ground arith) in (v, others n.h apart ∙ tv, cv)
            ];
            turn =
                let (n, x, _) = r.sound.live a (ground arith) in
                ground (arith, old a (absent a (ground arith)), r.turn);
          },
          refl,
          (t, at, started),
        ),
        (new, old, others),
      )

  called :
      (w' : World Graph) × (async_call graph_vtable mmap fn argument w ≡ ok (w', h))
      × IsCalled w w' a ps f fl' h fn argument
  called = let (w', runs, is, _) = called_lem in (w', runs, is)

module _ {w : World Graph} {a : ℕ} {ps : List ℕ} {f : Table} (fn argument : ℕ)
    (fits : w.sched.handle_to_node.cap * 2 + 10 < 2 ^ 64)
    (lt : w.sched.handle_to_node.node_max < int_max) (room : HasRoom w.sched.queue (a ∷ ps)) where
  pub async_call-IsRunning_reuse :
      (mmap : Option ℕ) (x : Handle) (fl : List Handle)
      → IsRunning w a ps f (x ∷ fl)
      → IsHandle x
      → f x ≡ none
      → (w' : World Graph) × (async_call graph_vtable mmap fn argument w ≡ ok (w', x))
        × IsCalled w w' a ps f fl x fn argument
  async_call-IsRunning_reuse mmap x fl r good fresh_key =
      let (old, t, p', taken, at_old, at, started, flag, s', others) =
        take_slot-IsPool_reuse fn argument mmap x fl r.pool in
      called r fn argument x good fresh_key fits lt room mmap p' t taken at started
        (s'.based x t at) s' others

  -- A call of a new task, with what becomes of the other nodes and tasks.
  pub async_call-new_lem :
      (base : ℕ)
      → IsRunning w a ps f []
      → 0 < base
      → w.pool.cap * 2 + 10 ≤ int_max
      → length w.pool.tasks + 1 < 2 ^ 31
      → f (length w.pool.tasks + 1) ≡ none
      → (w' : World Graph) × (async_call graph_vtable (some base) fn argument w
          ≡ ok (w', length w.pool.tasks + 1))
        × IsCalled w w' a ps f [] (length w.pool.tasks + 1) fn argument
        × IsApart w w' (length w.pool.tasks + 1)
  async_call-new_lem base r pos fit few fresh_key =
      let (t, p', taken, at, started, flag, s', others) =
        take_slot-IsPool_new fn argument base r.pool pos fit in
      let h = length w.pool.tasks + 1 in
      called_lem r fn argument h (omega arith) fresh_key fits lt room (some base) p' t taken at
        started (s'.based h t at) s' others

  -- In a well formed program with no free slot, with a stack that is not NULL, room in the pool,
  -- the table and the queue, fewer than 2^31 slots and no table entry for the new handle,
  -- `async_call` succeeds: the caller goes on, the new task is the last of the queue and looks as a
  -- task that is to start, and the program stays well formed.
  pub async_call-IsRunning_new :
      (base : ℕ)
      → IsRunning w a ps f []
      → 0 < base
      → w.pool.cap * 2 + 10 ≤ int_max
      → length w.pool.tasks + 1 < 2 ^ 31
      → f (length w.pool.tasks + 1) ≡ none
      → (w' : World Graph) × (async_call graph_vtable (some base) fn argument w
          ≡ ok (w', length w.pool.tasks + 1))
        × IsCalled w w' a ps f [] (length w.pool.tasks + 1) fn argument
  async_call-IsRunning_new base r pos fit few fresh_key =
      let (w', runs, is, _) = async_call-new_lem base r pos fit few fresh_key in (w', runs, is)

-- The world before the first coroutine.
abbrev pub start : World Graph
start = record { pool = empty_pool; sched = use_graph_scheduler; on_cpu = 0 }

-- The node that the first task gets.
abbrev pub first_node : ℕ
first_node = start.sched.fresh

first_registered :
    (g' : Graph) × (graph_register_task use_graph_scheduler 1 ≡ some g')
    × IsSound g' (first_node ∷ []) (bound (λ _. none) 1 first_node)
    × (g'.heap first_node ≡ some (new_task 1))
unfolding use_graph_scheduler
first_registered =
    let (g', reg, s, new, old) =
      graph_register_task-IsSound use_graph_scheduler-IsSound 1 (omega arith) refl (omega arith)
        (omega arith) (inr (omega arith)) in
    (g', reg, s, new)

-- The start of the first coroutine, with its node.
pub run_async_main_lem :
    (base main_fn argument : ℕ)
    → 0 < base
    → (w : World Graph) × (run_async_main graph_vtable (some base) main_fn argument start ≡ ok w)
      × IsRunning w first_node [] (bound (λ _. none) 1 first_node) []
      × (w.on_cpu ≡ 1)
      × ((t : Task) × (get_task w.pool 1 ≡ some t)
          × (t.fn ≡ main_fn)
          × (t.argument ≡ argument)
          × (t.state ≡ running))
      × (w.sched.heap first_node ≡ some (new_task 1))
unfolding run_async_main async_call start_new_task graph_vtable
run_async_main_lem base main_fn argument pos =
    let (t, p', taken, at, started, flag, s', others) =
      take_slot-IsPool_new main_fn argument base empty_pool-IsPool pos (omega arith) in
    let (g', reg, s, new) = first_registered in
    let can : CanRun t = record {
      not_free = ground arith;
      not_ready = ground arith;
      stacked = omega (arith, s'.based 1 t at);
    } in
    let (w', switched, cpu, sched, sp, law) =
      async_switch-IsPool_last (record start { pool = p'; sched = g' }) s' 0 1 t at can in
    (
      w',
      ground (arith, taken, reg, switched),
      record {
        sound = rw sched s;
        pool = sp;
        owner = λ b n q e.
            let here : b ≡ first_node = ground arith in
            let named : n ≡ new_task 1 = only g' new b n q (rw sched at e) in
            rw (here, named) (entry 1 first_node, refl, refl, omega arith);
        tasks = λ b n q e.
            let named : n ≡ new_task 1 = only g' new b n q (rw sched at e) in
            rw named (
              entered t,
              law 1,
              record {
                not_free = ground (arith, started);
                not_ready = ground (arith, started);
                stacked = ground (arith, can.stacked);
              },
            );
        turn = rw sched (ground (arith, cpu));
      },
      cpu,
      (entered t, law 1, ground (arith, started), ground (arith, started), ground (arith, started)),
      rw sched new,
    )
  where
    only :
        (g' : Graph)
        → g'.heap first_node ≡ some (new_task 1)
        → (b : ℕ) (n : Node) → mem b (first_node ∷ []) ≡ true
        → g'.heap b ≡ some n
        → n ≡ new_task 1
    only g' new b n q e =
        let here : b ≡ first_node = ground arith in
        let same : some n ≡ some (new_task 1) = sym e ∙ rw here new in ground arith

-- With a stack that is not NULL, `run_async_main` on the empty pool and the fresh graph scheduler
-- starts the first coroutine: its handle is 1, it is RUNNING with the function and argument that
-- were given, and the program is well formed with it alone in the queue.
pub run_async_main-IsRunning :
    (base main_fn argument : ℕ)
    → 0 < base
    → (w : World Graph) × (run_async_main graph_vtable (some base) main_fn argument start ≡ ok w)
      × IsRunning w first_node [] (bound (λ _. none) 1 first_node) []
      × (w.on_cpu ≡ 1)
      × ((t : Task) × (get_task w.pool 1 ≡ some t)
          × (t.fn ≡ main_fn)
          × (t.argument ≡ argument)
          × (t.state ≡ running))
run_async_main-IsRunning base main_fn argument pos =
    let (w, runs, is, turn, task, _) = run_async_main_lem base main_fn argument pos in
    (w, runs, is, turn, task)
