-- ===== src/Async/Leave.antt =====
-- `async_return` under the graph scheduler when nobody waits for the task.
use c_async_await.Base.{ℕ, ◌≡◌, ◌≢◌, refl, sym, ◌∙◌, true, false, some, List, ◌∷◌, arith, mem, ok}
use mathlib.Core.Path.{subst}
use c_async_await.Pool.{is_free, Handle, Task, TaskPool, get_task, put_task}
use c_async_await.Pool.Update.{get_task-put_task, put_task-IsPool}
use c_async_await.GraphScheduler.{Node, Graph, graph_vtable}
use c_async_await.GraphScheduler.Invariant.{Table, IsSound, handle_at, parent_at}
use c_async_await.GraphScheduler.Turns.{graph_current_task-IsSound}
use c_async_await.GraphScheduler.Finish.{NobodyWaits, graph_finish_task-IsSound_next}
use c_async_await.Async.Running.{IsRunning, same_node, Keeps, kept-finished}
use c_async_await.Scheduler.{World, current_task_handle, finish_current_task}
use c_async_await.Scheduler.Switch.{CanRun, async_switch-IsPool_last}
use c_async_await.Async.{async_return}
use c_async_await.Async.Return.{CanRun-entered, finished}

module _ {w : World Graph} {a : ℕ} {ps : List ℕ} {f : Table} {fl : List Handle}
    (r : IsRunning w a ps f fl) (n : Node) (t : Task) (at : w.sched.heap a ≡ some n)
    (task : get_task w.pool n.h ≡ some t) (result : ℕ) where
  -- Another queued task is not the one that returns: its slot stays as it was.
  pub untouched :
      (c : ℕ) (k : Node)
      → mem c ps ≡ true
      → w.sched.heap c ≡ some k
      → (v : Task) × (get_task (put_task w.pool n.h (finished t result)) k.h ≡ some v) × CanRun v
  untouched c k q old =
      let (v, tv, cv) = r.tasks c k (ground arith) old in
      let apart : n.h ≢ k.h = λ i. absurd (
        ground (
          arith,
          same_node r a c n k (ground arith) (ground arith) at old i,
          r.sound.distinct.0,
        )) in
      (v, ground (arith, get_task-put_task w.pool n.h t (finished t result) task k.h), cv)

module _ {w : World Graph} {a : ℕ} {ps : List ℕ} {f : Table} {fl : List Handle}
    (r : IsRunning w a ps f fl) (n : Node) (t : Task) (at : w.sched.heap a ≡ some n)
    (task : get_task w.pool n.h ≡ some t) (not_main : w.on_cpu ≢ 1) (kept : t.orphaned ≡ false)
    (result : ℕ) (nw : NobodyWaits r.sound n) where
  -- The return that nobody waits for, with what becomes of the other nodes and of the tasks.
  pub async_return-next_lem :
      (b : ℕ) (bs : List ℕ)
      → ps ≡ b ∷ bs
      → (w' : World Graph) × (async_return graph_vtable w result ≡ ok w')
        × (w'.on_cpu ≡ handle_at w.sched b)
        × IsRunning w' b bs f fl
        × (get_task w'.pool n.h ≡ some (finished t result))
        × ((x : ℕ) → parent_at w'.sched x ≡ parent_at w.sched x)
        × Keeps n.h w w'
  unfolding async_return current_task_handle finish_current_task graph_vtable
  async_return-next_lem b bs pe =
      let fin_t : Task = finished t result in
      let can = r.tasks a n (ground arith) at in
      let cur = graph_current_task-IsSound r.sound in
      let (g', fin, s', names, parents) = graph_finish_task-IsSound_next r.sound pe n at nw in
      let inside : (c : ℕ) → mem c (b ∷ bs) ≡ true → mem c ps ≡ true = λ c q. rw pe q in
      let (m, bt, posm) = r.sound.live b (rw pe (ground arith)) in
      let (u, task_b, can_b) = untouched r n t at task result b m (rw pe (ground arith)) bt in
      let apart : n.h ≢ m.h = λ i. absurd (
        ground (
          arith,
          same_node r a b n m (ground arith) (rw pe (ground arith)) at bt i,
          r.sound.distinct.0,
        )) in
      let alive : is_free t.state ≡ false = ground (arith, can.2.not_free) in
      let p₁ : TaskPool = put_task w.pool n.h fin_t in
      let law₁ = get_task-put_task w.pool n.h t fin_t task in
      let sp₁ = put_task-IsPool w.pool n.h t fin_t task (sym alive) refl r.pool refl in
      let w₂ : World Graph = record w { pool = p₁; sched = g' } in
      let (w', switched, cpu, sched, sp, law) =
        async_switch-IsPool_last w₂ sp₁ 0 m.h u task_b can_b in
      (
        w',
        ground (arith, cur, r.turn, fin, law₁ n.h, switched, task),
        ground (arith, cpu),
        record {
          sound =
              subst (λ g. IsSound g (b ∷ bs) f) (sym sched) (subst (λ qs. IsSound g' qs f) pe s');
          pool = sp;
          owner = λ c k q at_c.
              let (k', old, same) = names c k (rw sched at at_c) in
              rw (← same) (r.owner c k' (ground (arith, inside c q)) old);
          tasks = λ c k q at_c.
              let (k', old, same) = names c k (rw sched at at_c) in
              let (v, tv, cv) = untouched r n t at task result c k' (inside c q) old in
              let (v', after, cv') = CanRun-entered m.h k'.h u v can_b cv in
              subst (λ x. (v : Task) × (get_task w'.pool x ≡ some v) × CanRun v) same
                (v', law k'.h ∙ rw tv after, cv');
          turn =
              let (m', there, _) = s'.live b (inside b (ground arith)) in
              let (k, old, same) = names b m' there in ground (arith, cpu, sched);
        },
        ground (arith, law n.h, law₁ n.h),
        rw sched parents,
        λ k v tv.
            let (v', after, cv') = kept-finished n.h m.h k fin_t u v can_b in
            (v', ground (arith, law k, law₁ k, tv, after), cv'),
      )

  -- In a well formed program, when a coroutine other than the first returns, is not orphaned,
  -- nobody waits for it and another task is queued behind it, `async_return` succeeds: the next
  -- task of the queue has the processor, the queue is what was behind the one that returned, the
  -- program stays well formed, and the slot of the one that returned is READY with its result.
  pub async_return-IsRunning_next :
      (b : ℕ) (bs : List ℕ)
      → ps ≡ b ∷ bs
      → (w' : World Graph) × (async_return graph_vtable w result ≡ ok w')
        × (w'.on_cpu ≡ handle_at w.sched b)
        × IsRunning w' b bs f fl
        × (get_task w'.pool n.h ≡ some (finished t result))
  async_return-IsRunning_next b bs pe =
      let (w', runs, cpu, running, left, _, _) = async_return-next_lem b bs pe in
      (w', runs, cpu, running, left)
