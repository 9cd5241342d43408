-- ===== src/Async/Skip.antt =====
-- `async_skip` under the graph scheduler.
use c_async_await.Base.{
  ℕ, ◌<◌, ◌≡◌, ◌≢◌, ◌∙◌, true, Option, some, List, [], ◌∷◌, ◌++◌, arith, mem, mem-append, ap,
}
use c_async_await.Pool.{Handle}
use c_async_await.Scheduler.{World, async_skip, current_task_handle, next_task_handle}
use c_async_await.Scheduler.Switch.{async_switch-IsPool}
use c_async_await.GraphScheduler.{Node, Graph, graph_vtable}
use c_async_await.GraphScheduler.Invariant.{Table, handle_at}
use c_async_await.GraphScheduler.Turns.{front, graph_current_task-IsSound, graph_next_task-IsSound}
use c_async_await.Async.Running.{IsRunning, behind, CanRun-after, Keeps, kept-after, same_node}

-- `async_skip` keeps the program well formed, and no task is lost.
pub async_skip_lem :
    {w : World Graph} {a : ℕ} {ps : List ℕ} {f : Table} {fl : List Handle} (rsp : ℕ)
    → 0 < rsp
    → IsRunning w a ps f fl
    → (w' : World Graph) × (async_skip graph_vtable w rsp ≡ some w')
      × IsRunning w' (front a ps) (behind a ps) f fl
      × (w'.sched.heap ≡ w.sched.heap)
      × Keeps 0 w w'
unfolding async_skip graph_vtable current_task_handle next_task_handle
async_skip_lem {w} {a} {ps = []} rsp pos r =
    let (g', step, s', same) = graph_next_task-IsSound r.sound in
    let cur = graph_current_task-IsSound r.sound in
    let (n, at, _) = r.sound.live a (ground arith) in
    let (t, task, can) = r.tasks a n (ground arith) at in
    (
      record w { sched = g' },
      ground (arith, step, cur, task),
      record {
        sound = s';
        pool = r.pool;
        owner = λ b m q e. r.owner b m q (rw same at e);
        tasks = λ b m q e. r.tasks b m q (rw same at e);
        turn = rw (same, handle_at) r.turn;
      },
      same,
      λ k v e. (v, e, λ _ cv. cv),
    )
async_skip_lem {w} {a} {ps = b ∷ bs} {f} {fl} rsp pos r =
    let (g', step, s', same) = graph_next_task-IsSound r.sound in
    let cur = graph_current_task-IsSound r.sound in
    let (n, at, pn) = r.sound.live a (ground arith) in
    let (m, bt, pm) = r.sound.live b (ground arith) in
    let (t, task, can) = r.tasks a n (ground arith) at in
    let (u, task_b, can_b) = r.tasks b m (ground arith) bt in
    let apart : n.h ≢ m.h = λ e. absurd (
      ground
        (arith, same_node r a b n m (ground arith) (ground arith) at bt e, r.sound.distinct.0)) in
    let w₁ : World Graph = record w { sched = g' } in
    let (w', switched, cpu, sched, sp, law) =
      async_switch-IsPool w₁ r.pool rsp m.h u task_b n.h t task apart can_b in
    (
      w',
      ground (arith, step, cur, task, switched),
      record {
        sound = rw sched s';
        pool = sp;
        owner = λ c k q e. r.owner c k (members c q) (rw (← same) (rw sched at e));
        tasks = λ c k q e.
            let (v, tv, cv) = r.tasks c k (members c q) (rw (← same) (rw sched at e)) in
            let (v', after, cv') = CanRun-after rsp n.h m.h k.h t u v pos can can_b cv in
            (v', law k.h ∙ rw tv after, cv');
        turn = ground (arith, cpu, sched, ap (λ (k : ℕ → Option Node). k b) same);
      },
      rw sched same,
      λ k v tv.
          let (v', after, cv') = kept-after rsp n.h m.h k t u v pos can can_b in
          (v', law k ∙ rw tv after, λ _. cv'),
    )
  where
    members : (c : ℕ) → mem c (b ∷ bs ++ a ∷ []) ≡ true → mem c (a ∷ b ∷ bs) ≡ true
    members c q = ground (arith, mem-append c bs (a ∷ []))

-- In a well formed program and with a saved stack pointer that is not NULL, `async_skip` succeeds
-- and the program stays well formed: the next task of the queue has the processor, the one that
-- skipped is the last of the queue, and the nodes do not change; a task that is alone goes on
-- itself.
pub async_skip-IsRunning :
    {w : World Graph} {a : ℕ} {ps : List ℕ} {f : Table} {fl : List Handle} (rsp : ℕ)
    → 0 < rsp
    → IsRunning w a ps f fl
    → (w' : World Graph) × (async_skip graph_vtable w rsp ≡ some w')
      × IsRunning w' (front a ps) (behind a ps) f fl
      × (w'.sched.heap ≡ w.sched.heap)
async_skip-IsRunning rsp pos r =
    let (w', runs, running, same, _) = async_skip_lem rsp pos r in (w', runs, running, same)
