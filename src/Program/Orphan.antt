-- ===== src/Program/Orphan.antt =====
-- `async_orphan` in a whole program.
use c_async_await.Base.{
  ℕ, ◌≡◌, refl, ◌∙◌, Bool, true, some, List, ◌==◌, if◌then◌else◌, arith, inl, inr, Bool-cases,
}
use c_async_await.Pool.{Handle, Task, get_task, put_task}
use c_async_await.Pool.Update.{get_task-put_task, put_task-IsPool}
use c_async_await.Scheduler.{World}
use c_async_await.Scheduler.Switch.{CanRun}
use c_async_await.GraphScheduler.{Graph, graph_vtable}
use c_async_await.GraphScheduler.Invariant.{Table}
use c_async_await.Async.{async_orphan}
use c_async_await.Async.Running.{Keeps}
use c_async_await.Program.{IsProgram}
use c_async_await.Program.Keep.{Waiting-after}

abbrev pub orphaned_task : Task → Task
orphaned_task t = record t { orphaned = true }

-- An orphan runs as before.
orphaned-kept :
    (h k : Handle) (t v : Task)
    → (h ≡ k → v ≡ t)
    → (v' : Task) × ((if h == k then some (orphaned_task t) else some v) ≡ some v')
      × (CanRun v → CanRun v')
orphaned-kept h k t v same = elim (Bool-cases (h == k)) [
  | inl q ↦ (
    orphaned_task t,
    ground arith,
    λ c.
        let both : v ≡ t = same (ground arith) in
        record {
          not_free = ground (arith, c.not_free);
          not_ready = ground (arith, c.not_ready);
          stacked = ground (arith, c.stacked);
        },
  )
  | inr q ↦ (v, ground arith, λ c. c)
]

-- In a program, `async_orphan` of a task leaves a program with the same queue, the same nodes and
-- the same coroutine on the processor, and the task is an orphan.
pub async_orphan-IsProgram :
    {w : World Graph} {a : ℕ} {ps : List ℕ} {ws : ℕ → Bool} {f : Table} (h : Handle) (t : Task)
    → IsProgram w a ps ws f
    → get_task w.pool h ≡ some t
    → (w' : World Graph) × (async_orphan graph_vtable w h ≡ some w')
      × IsProgram w' a ps ws f
      × (get_task w'.pool h ≡ some (orphaned_task t))
unfolding async_orphan
async_orphan-IsProgram {w} {f = f} h t r at =
    let law = get_task-put_task w.pool h t (orphaned_task t) at in
    let w' : World Graph = record w { pool = put_task w.pool h (orphaned_task t) } in
    let kept : Keeps 0 w w' = λ k v tv.
      let (v', after, can') = orphaned-kept h k t v (λ i. ground arith) in
      (v', law k ∙ rw tv after, λ _. can') in
    (
      w',
      rw at refl,
      record {
        runs = record {
          sound = r.runs.sound;
          pool = put_task-IsPool w.pool h t (orphaned_task t) at refl refl r.runs.pool refl;
          owner = r.runs.owner;
          tasks = λ b n q e.
              let (v, tv, cv) = r.runs.tasks b n q e in
              let (_, _, _, good) = r.runs.owner b n q e in
              let (v', tv', can) = kept n.h v tv in
              (v', tv', can (λ i. absurd (ground (arith, good))) cv);
          turn = r.runs.turn;
        };
        apart = r.apart;
        waits = λ b q.
            let (k, is) = r.waits b q in
            (k, Waiting-after w w' 0 f b k kept (λ i. ground (arith, is)) is);
        awaited = r.awaited;
        once = r.once;
        keyed = λ k e good found.
            let (v, tv) = r.keyed k e good found in let (v', tv', _) = kept k v tv in (v', tv');
        main = r.main;
        main_alive = r.main_alive;
        leads = r.leads;
      },
      law h ∙ ground arith,
    )
