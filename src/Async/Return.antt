-- ===== src/Async/Return.antt =====
-- `async_return` under the graph scheduler.
use c_async_await.Base.{
  ℕ, ◌≡◌, ◌≢◌, refl, sym, ◌∙◌, true, false, some, List, ◌∷◌, ◌==◌, if◌then◌else◌, arith, mem, inl,
  inr, Bool-cases, ok, exit,
}
use c_async_await.HashMap.{HashNode}
use c_async_await.Pool.{ready, is_free, Handle, Task, TaskPool, get_task, put_task}
use c_async_await.Pool.Update.{get_task-put_task, put_task-IsPool}
use c_async_await.GraphScheduler.{Node, Graph, graph_vtable}
use c_async_await.GraphScheduler.Invariant.{Table, IsHandle, parent_at}
use c_async_await.GraphScheduler.Turns.{graph_current_task-IsSound}
use c_async_await.Async.Running.{IsRunning, same_node, Keeps, kept-finished}
use c_async_await.Scheduler.{World, current_task_handle, finish_current_task}
use c_async_await.Scheduler.Switch.{CanRun, entered, async_switch-IsPool_last}
use c_async_await.GraphScheduler.Finish.{graph_finish_task-IsSound_parent}
use c_async_await.Async.{async_return, exit_code}

-- When the first coroutine of a well formed program returns, the process exits with its result as
-- an `int`.
pub async_return_main :
    {w : World Graph} {a : ℕ} {ps : List ℕ} {f : Table} {fl : List Handle}
    → IsRunning w a ps f fl
    → w.on_cpu ≡ 1
    → (result : ℕ) → async_return graph_vtable w result ≡ exit (exit_code result)
unfolding async_return current_task_handle graph_vtable
async_return_main r main result = ground (arith, graph_current_task-IsSound r.sound, r.turn)

-- Entering a task keeps every task that can run so.
pub CanRun-entered :
    (to k : Handle) (t v : Task)
    → CanRun t
    → CanRun v
    → (v' : Task) × ((if to == k then some (entered t) else some v) ≡ some v') × CanRun v'
CanRun-entered to k t v rt rv = elim (Bool-cases (to == k)) [
  | inl e ↦ (
    entered t,
    ground arith,
    record {
      not_free = ground (arith, rt.not_free);
      not_ready = ground (arith, rt.not_ready);
      stacked = ground (arith, rt.stacked);
    },
  )
  | inr e ↦ (v, ground arith, rv)
]

-- A task as it is left: finished, with its result.
abbrev pub finished : Task → ℕ → Task
finished t result = record t { argument = result; state = ready }

module _ {w : World Graph} {a : ℕ} {ps : List ℕ} {f : Table} {fl : List Handle}
    (r : IsRunning w a ps f fl) (n : Node) (t : Task) (at : w.sched.heap a ≡ some n)
    (task : get_task w.pool n.h ≡ some t) (not_main : w.on_cpu ≢ 1) (kept : t.orphaned ≡ false)
    (result : ℕ) where
  -- The return to a parent, with what becomes of the other nodes and of the tasks.
  pub async_return-parent_lem :
      (p : ℕ) (m : Node) (e : HashNode ℕ ℕ) (u : Task)
      → n.parent ≡ some p
      → w.sched.heap p ≡ some m
      → mem p (a ∷ ps) ≡ false
      → f m.h ≡ some e
      → e.val ≡ some p
      → IsHandle m.h
      → get_task w.pool m.h ≡ some u
      → CanRun u
      → (w' : World Graph) × (async_return graph_vtable w result ≡ ok w')
        × (w'.on_cpu ≡ m.h)
        × IsRunning w' p ps f fl
        × (get_task w'.pool n.h ≡ some (finished t result))
        × ((x : ℕ) → parent_at w'.sched x ≡ parent_at w.sched x)
        × Keeps n.h w w'
  unfolding async_return current_task_handle finish_current_task graph_vtable
  async_return-parent_lem p m e u np mp out fe ev gm task_p can_p =
      let (x, fx, vx, _) = r.owner a n (ground arith) at in
      let can = r.tasks a n (ground arith) at in
      let cur = graph_current_task-IsSound r.sound in
      let (g', fin, s', names, parents) =
        graph_finish_task-IsSound_parent r.sound n m p at np mp out gm.0 in
      let apart : n.h ≢ m.h = λ q. absurd (ground arith) in
      let alive : is_free t.state ≡ false = ground (arith, can.2.not_free) in
      let p₁ : TaskPool = put_task w.pool n.h (finished t result) in
      let law₁ = get_task-put_task w.pool n.h t (finished t result) task in
      let sp₁ =
        put_task-IsPool w.pool n.h t (finished t result) task (sym alive) refl r.pool refl in
      let w₂ : World Graph = record w { pool = p₁; sched = g' } in
      let (w', switched, cpu, sched, sp, law) =
        async_switch-IsPool_last w₂ sp₁ 0 m.h u (law₁ m.h ∙ ground arith) can_p in
      (
        w',
        ground (arith, cur, r.turn, fin, law₁ n.h, switched, task),
        cpu,
        record {
          sound = rw sched s';
          pool = sp;
          owner = λ c k q at_c. owners c k q (names c k (rw sched at at_c));
          tasks = λ c k q at_c.
              let (v, tv, cv) = runnable c k q (names c k (rw sched at at_c)) in
              let (v', after, cv') = CanRun-entered m.h k.h u v can_p cv in
              (v', law k.h ∙ rw tv after, cv');
          turn =
              let (m', there, _) = s'.live p (ground arith) in
              let (k, old, same) = names p m' there in ground (arith, cpu, sched);
        },
        ground (arith, law n.h, law₁ n.h),
        rw sched parents,
        λ k v tv.
            let (v', after, cv') = kept-finished n.h m.h k (finished t result) u v can_p in
            (v', ground (arith, law k, law₁ k, tv, after), cv'),
      )
    where
      owners :
          (c : ℕ) (k : Node)
          → mem c (p ∷ ps) ≡ true
          → (k' : Node) × (w.sched.heap c ≡ some k') × (k'.h ≡ k.h)
          → (d : HashNode ℕ ℕ) × (f k.h ≡ some d) × (d.val ≡ some c) × IsHandle k.h
      owners c k q (k', old, same) = elim (Bool-cases (p == c)) [
        | inl here ↦ let e' : m ≡ k' = ground arith in rw (← same, ← e') (e, fe, ground arith, gm)
        | inr there ↦ rw (← same) (r.owner c k' (ground arith) old)
      ]

      runnable :
          (c : ℕ) (k : Node)
          → mem c (p ∷ ps) ≡ true
          → (k' : Node) × (w.sched.heap c ≡ some k') × (k'.h ≡ k.h)
          → (v : Task) × (get_task (put_task w.pool n.h (finished t result)) k.h ≡ some v)
            × CanRun v
      runnable c k q (k', old, same) =
          let law₁ = get_task-put_task w.pool n.h t (finished t result) task k.h in
          elim (Bool-cases (p == c)) [
            | inl here ↦
                let e' : m ≡ k' = ground arith in
                let (x, fx, vx, _) = r.owner a n (ground arith) at in
                let same_m : m.h ≡ k.h = ground arith in
                let apart : n.h ≢ m.h = λ i. absurd (ground arith) in
                (u, ground (arith, law₁), can_p)
            | inr there ↦
                let (v, tv, cv) = r.tasks c k' (ground arith) old in
                let apart : n.h ≢ k'.h = λ i. absurd (
                  ground (
                    arith,
                    same_node r a c n k' (ground arith) (ground arith) at old i,
                    r.sound.distinct.0,
                  )) in
                (v, ground (arith, law₁), cv)
          ]

  -- In a well formed program, when a coroutine other than the first returns, is not orphaned, and
  -- its parent is not in the queue, is the table's node for its handle and can run, `async_return`
  -- succeeds: the parent has the processor and is the front of the queue before the tasks that were
  -- behind the one that returned, the program stays well formed, and the slot of the one that
  -- returned is READY with its result.
  pub async_return-IsRunning_parent :
      (p : ℕ) (m : Node) (e : HashNode ℕ ℕ) (u : Task)
      → n.parent ≡ some p
      → w.sched.heap p ≡ some m
      → mem p (a ∷ ps) ≡ false
      → f m.h ≡ some e
      → e.val ≡ some p
      → IsHandle m.h
      → get_task w.pool m.h ≡ some u
      → CanRun u
      → (w' : World Graph) × (async_return graph_vtable w result ≡ ok w')
        × (w'.on_cpu ≡ m.h)
        × IsRunning w' p ps f fl
        × (get_task w'.pool n.h ≡ some (finished t result))
  async_return-IsRunning_parent p m e u np mp out fe ev gm task_p can_p =
      let (w', runs, cpu, running, left, _, _) =
        async_return-parent_lem p m e u np mp out fe ev gm task_p can_p in
      (w', runs, cpu, running, left)
