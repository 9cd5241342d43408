-- ===== src/Async/Wait.antt =====
-- `await` under the graph scheduler.
use c_async_await.Base.{
  ℕ, ◌<◌, ◌≡◌, ◌≢◌, sym, ◌∙◌, true, false, none, some, List, ◌∷◌, ◌==◌, arith, mem, inl, inr,
  Bool-cases,
}
use mathlib.Core.Path.{subst}
use c_async_await.HashMap.{HashNode}
use c_async_await.Pool.{is_ready, Handle, Task, get_task, put_task}
use c_async_await.Pool.FreeList.{get_task-some}
use c_async_await.Pool.Update.{get_task-put_task}
use c_async_await.GraphScheduler.{Node, Graph, graph_scheduler, graph_poll_task}
use c_async_await.GraphScheduler.Invariant.{
  Table, IsHandle, IsSound, handle_at, SameHandles, parent_at,
}
use c_async_await.GraphScheduler.Turns.{graph_current_task-IsSound}
use c_async_await.Async.Running.{IsRunning, CanRun-after, Keeps, kept-after, KeepsWork, work-after}
use c_async_await.Scheduler.{World, async_switch, current_task_handle, poll_state}
use c_async_await.Scheduler.Switch.{CanRun, async_switch-IsPool, async_switch_stopped}
use c_async_await.GraphScheduler.Park.{park-IsSound_front, park-IsSound_queued}
use c_async_await.Async.{await, await_resume, awaited, got, parked}

-- The same world with another task in a slot.
abbrev pub with_task : World Graph → Handle → Task → World Graph
with_task w h t = record w { pool = put_task w.pool h t }

-- Whoever has the processor goes on with the result of a task that is READY.
resume_ready :
    {w : World Graph} {a : ℕ} {ps : List ℕ} {f : Table} (h : Handle) (e : HashNode ℕ ℕ) (c : ℕ)
    (m : Node) (t : Task) (rsp : ℕ)
    → IsSound w.sched (a ∷ ps) f
    → handle_at w.sched a ≡ w.on_cpu
    → IsHandle h
    → f h ≡ some e
    → e.val ≡ some c
    → w.sched.heap c ≡ some m
    → m.h ≡ h
    → get_task w.pool h ≡ some t
    → is_ready t.state ≡ true
    → await_resume graph_scheduler w rsp w.on_cpu h c ≡ some (w, got t.argument)
unfolding await_resume awaited graph_scheduler current_task_handle poll_state graph_poll_task
resume_ready {w} h e c m t rsp s turn good entry val at name task done =
    let cur = graph_current_task-IsSound s in
    let (pos, inside, el) = get_task-some w.pool h t task in ground (arith, cur, turn)

module _ {w : World Graph} {a : ℕ} {ps : List ℕ} {f : Table} {fl : List Handle}
    (r : IsRunning w a ps f fl) (h : Handle) (good : IsHandle h) (e : HashNode ℕ ℕ) (c : ℕ)
    (m : Node) (t : Task) (entry : f h ≡ some e) (val : e.val ≡ some c)
    (at : w.sched.heap c ≡ some m) (name : m.h ≡ h) (task : get_task w.pool h ≡ some t) where
  -- In a well formed program, when the caller of `await` has the processor again and the task that
  -- it waited for is READY and known to the table, `await` returns the result in that task's slot
  -- and changes nothing.
  pub await_resume-IsRunning :
      (rsp : ℕ)
      → is_ready t.state ≡ true
      → await_resume graph_scheduler w rsp w.on_cpu h c ≡ some (w, got t.argument)
  await_resume-IsRunning rsp done =
      resume_ready h e c m t rsp r.sound r.turn good entry val at name task done

  -- The assertion that the task which it waited for is READY.
  await_resume_not_ready :
      (rsp : ℕ) → is_ready t.state ≡ false → await_resume graph_scheduler w rsp w.on_cpu h c ≡ none
  unfolding await_resume awaited graph_scheduler current_task_handle poll_state graph_poll_task
  await_resume_not_ready rsp busy =
      let cur = graph_current_task-IsSound r.sound in
      let (pos, inside, el) = get_task-some w.pool h t task in ground (arith, cur, r.turn)

-- The processor goes from the caller to the front of another queue, each task of which can run.
module _ {w : World Graph} {a : ℕ} {ps : List ℕ} {f : Table} {fl : List Handle}
    (r : IsRunning w a ps f fl) {b : ℕ} {bs : List ℕ} (g' : Graph) (s' : IsSound g' (b ∷ bs) f)
    (names : SameHandles w.sched g')
    (owners : (x : ℕ) (k : Node)
      → mem x (b ∷ bs) ≡ true
      → w.sched.heap x ≡ some k
      → (d : HashNode ℕ ℕ) × (f k.h ≡ some d) × (d.val ≡ some x) × IsHandle k.h)
    (runnable : (x : ℕ) (k : Node)
      → mem x (b ∷ bs) ≡ true
      → w.sched.heap x ≡ some k
      → (v : Task) × (get_task w.pool k.h ≡ some v) × CanRun v)
    (moved : a ≢ b) where
  handed_over :
      (rsp : ℕ)
      → 0 < rsp
      → (w' : World Graph) × (async_switch
            (record w { sched = g' })
            rsp
            (handle_at w.sched a)
            (handle_at g' b)
          ≡ some w')
        × IsRunning w' b bs f fl
        × (w'.sched ≡ g')
        × Keeps 0 w w'
        × KeepsWork w w'
  handed_over rsp pos =
      let (n, at, pn) = r.sound.live a (ground arith) in
      let (m', bt', pm) = s'.live b (ground arith) in
      let (m, bt, same) = names b m' bt' in
      let (t, task, can) = r.tasks a n (ground arith) at in
      let (u, task_b, can_b) = runnable b m (ground arith) bt in
      let (x, fx, vx, _) = r.owner a n (ground arith) at in
      let (y, fy, vy, _) = owners b m (ground arith) bt in
      let apart : n.h ≢ m.h = λ i. absurd (ground arith) in
      let (w', switched, cpu, sched, sp, law) =
        async_switch-IsPool (record w { sched = g' }) r.pool rsp m.h u task_b n.h t task apart
          can_b in
      let here : handle_at w.sched a ≡ n.h = ground arith in
      let there : handle_at g' b ≡ m.h = ground arith in
      (
        w',
        rw (here, there) switched,
        record {
          sound = rw sched s';
          pool = sp;
          owner = λ c k q e.
              let (k', old, eq) = names c k (rw sched at e) in rw (← eq) (owners c k' q old);
          tasks = λ c k q e.
              let (k', old, eq) = names c k (rw sched at e) in
              let (v, tv, cv) = runnable c k' q old in
              let (v', after, cv') = CanRun-after rsp n.h m.h k'.h t u v pos can can_b cv in
              subst (λ x. (v : Task) × (get_task w'.pool x ≡ some v) × CanRun v) eq
                (v', law k'.h ∙ rw tv after, cv');
          turn = rw (sched, there) (sym cpu);
        },
        sched,
        λ k v tv.
            let (v', after, cv') = kept-after rsp n.h m.h k t u v pos can can_b in
            (v', law k ∙ rw tv after, λ _. cv'),
        λ k v tv.
            let (v', after, work) =
              work-after rsp n.h m.h k t u v (λ i. ground arith) (λ i. ground arith) in
            (v', law k ∙ rw tv after, work),
      )

-- The front of a queue has the same handle before and after.
same_handle :
    {g g' : Graph} {a b : ℕ} {ps bs : List ℕ} {f : Table}
    → IsSound g (a ∷ ps) f
    → IsSound g' (b ∷ bs) f
    → SameHandles g g'
    → ps ≡ b ∷ bs
    → handle_at g' b ≡ handle_at g b
same_handle {b = b} s s' names pe =
    let (m', there, _) = s'.live b (ground arith) in
    let (m, here, same) = names b m' there in ground arith

module _ {w : World Graph} {a : ℕ} {ps : List ℕ} {f : Table} {fl : List Handle}
    (r : IsRunning w a ps f fl) (h : Handle) (good : IsHandle h) (e : HashNode ℕ ℕ) (c : ℕ)
    (m : Node) (entry : f h ≡ some e) (val : e.val ≡ some c) (at : w.sched.heap c ≡ some m)
    (name : m.h ≡ h) (alone : m.parent ≡ none) (other : c ≢ a) where
  -- `await` of a queued task, with what becomes of the other nodes and of the tasks.
  pub await_queued_lem :
      (rsp : ℕ) {b : ℕ} {bs : List ℕ}
      → 0 < rsp
      → ps ≡ b ∷ bs
      → mem c ps ≡ true
      → (w' : World Graph) × (await graph_scheduler w rsp h ≡ some (w', parked c))
        × IsRunning w' b bs f fl
        × (w'.sched.heap c ≡ some (record m { parent = some a }))
        × ((x : ℕ) → c ≢ x → parent_at w'.sched x ≡ parent_at w.sched x)
        × Keeps 0 w w'
        × KeepsWork w w'
  unfolding await graph_scheduler
  await_queued_lem rsp {b} {bs} pos pe queued =
      let (g', step, s', names, now, parents) =
        park-IsSound_queued r.sound h good e c m entry val at name alone other pe queued in
      let s'' : IsSound g' (b ∷ bs) f = subst (λ qs. IsSound g' qs f) pe s' in
      let member : (x : ℕ) → mem x (b ∷ bs) ≡ true → mem x (a ∷ ps) ≡ true =
        λ x q. rw pe (ground arith) in
      let apart : a ≢ b = ground (arith, r.sound.distinct.0) in
      let (w', switched, running, sched, kept, work) =
        handed_over r g' s'' names (λ x k q. r.owner x k (member x q))
          (λ x k q. r.tasks x k (member x q)) apart rsp pos in
      let same = same_handle r.sound s'' names pe in
      (
        w',
        ground (arith, step, same, switched),
        running,
        rw sched now,
        rw sched parents,
        kept,
        work,
      )

  -- In a well formed program, with a saved stack pointer that is not NULL, when a coroutine awaits
  -- another task that is queued, that the table knows and that no one awaited before, and a task is
  -- queued behind the caller, `await` stops at its switch with the processor at the next task of
  -- the queue: the caller has left the queue, the node waited for has it as its parent, and the
  -- program stays well formed.
  pub await-IsRunning_queued :
      (rsp : ℕ) {b : ℕ} {bs : List ℕ}
      → 0 < rsp
      → ps ≡ b ∷ bs
      → mem c ps ≡ true
      → (w' : World Graph) × (await graph_scheduler w rsp h ≡ some (w', parked c))
        × IsRunning w' b bs f fl
        × (w'.sched.heap c ≡ some (record m { parent = some a }))
  await-IsRunning_queued rsp pos pe queued =
      let (w', runs, running, now, _, _, _) = await_queued_lem rsp pos pe queued in
      (w', runs, running, now)

  -- `await` of a task that is not queued, with what becomes of the others.
  pub await_front_lem :
      (rsp : ℕ) (t : Task)
      → 0 < rsp
      → mem c ps ≡ false
      → get_task w.pool h ≡ some t
      → CanRun t
      → (w' : World Graph) × (await graph_scheduler w rsp h ≡ some (w', parked c))
        × IsRunning w' c ps f fl
        × (w'.on_cpu ≡ h)
        × Keeps 0 w w'
  unfolding await graph_scheduler
  await_front_lem rsp t pos idle task can =
      let (g', step, s', names, now) =
        park-IsSound_front r.sound h good e c m entry val at name alone other idle in
      let apart : a ≢ c = λ q. other (sym q) in
      let here : handle_at g' c ≡ h = ground (arith, name) in
      let (w', switched, running, sched, kept, _) =
        handed_over r g' s' names
          (λ x k q at_x. elim (Bool-cases (c == x)) [
            | inl y ↦
                let named : h ≡ k.h = ground arith in rw (← named) (e, entry, ground arith, good)
            | inr y ↦ r.owner x k (ground arith) at_x
          ])
          (λ x k q at_x. elim (Bool-cases (c == x)) [
            | inl y ↦ let named : h ≡ k.h = ground arith in rw (← named) (t, task, can)
            | inr y ↦ r.tasks x k (ground arith) at_x
          ])
          apart rsp pos in
      (
        w',
        ground (arith, step, here, switched),
        running,
        sym running.turn ∙ ground (arith, sched, here),
        kept,
      )

  -- In a well formed program, with a saved stack pointer that is not NULL, when a coroutine awaits
  -- another task that is not queued, that the table knows, that no one awaited before and that can
  -- run, such as one that waits itself, `await` stops at its switch: that task is put in front of
  -- the queue, has the processor, and the program stays well formed.
  pub await-IsRunning_front :
      (rsp : ℕ) (t : Task)
      → 0 < rsp
      → mem c ps ≡ false
      → get_task w.pool h ≡ some t
      → CanRun t
      → (w' : World Graph) × (await graph_scheduler w rsp h ≡ some (w', parked c))
        × IsRunning w' c ps f fl
        × (w'.on_cpu ≡ h)
  await-IsRunning_front rsp t pos idle task can =
      let (w', runs, running, cpu, _) = await_front_lem rsp t pos idle task can in
      (w', runs, running, cpu)

  -- In a well formed program, when a coroutine awaits another task that the table knows, that no
  -- one awaited before, that is not queued and is READY already, `await` fails an assertion.
  pub await_finished :
      (rsp : ℕ) (t : Task)
      → mem c ps ≡ false
      → get_task w.pool h ≡ some t
      → is_ready t.state ≡ true
      → await graph_scheduler w rsp h ≡ none
  unfolding await graph_scheduler
  await_finished rsp t idle task done =
      let (g', step, s', names, now) =
        park-IsSound_front r.sound h good e c m entry val at name alone other idle in
      ground (
        arith,
        step,
        async_switch_stopped (record w { sched = g' }) r.pool rsp h t task (handle_at w.sched a)
            (inr done),
      )

  -- In a well formed program, with a saved stack pointer that is not NULL, when a coroutine awaits
  -- a task `h` that is not queued, that the table knows, that no one awaited before and that can
  -- run, and the table knows a task `k` that can run, such as that of the caller, `await` gives the
  -- processor to `h`, and there an `await` of `k` that `h` had begun fails an assertion; were a
  -- task that is READY in the slot of `k`, it would return the result of that task.
  pub await_too_early :
      (rsp rsp' : ℕ) (t : Task) (k : Handle) (d : HashNode ℕ ℕ) (local : ℕ) (u v : Task)
      → 0 < rsp
      → mem c ps ≡ false
      → get_task w.pool h ≡ some t
      → CanRun t
      → IsHandle k
      → f k ≡ some d
      → d.val ≡ some local
      → get_task w.pool k ≡ some u
      → CanRun u
      → is_ready v.state ≡ true
      → (w' : World Graph) × (await graph_scheduler w rsp h ≡ some (w', parked c))
        × (w'.on_cpu ≡ h)
        × (await_resume graph_scheduler w' rsp' w'.on_cpu k local ≡ none)
        × (await_resume graph_scheduler (with_task w' k v) rsp' w'.on_cpu k local
            ≡ some (with_task w' k v, got v.argument))
  await_too_early rsp rsp' t k d local u v pos idle task can good_k found there task_k can_k ready =
      let (w', runs, running, cpu, kept) = await_front_lem rsp t pos idle task can in
      let (b, n, val_b, at_b, nh) = running.sound.named k d good_k found in
      let same : some b ≡ some local = sym val_b ∙ there in
      let at_local : w'.sched.heap local ≡ some n = ground arith in
      let (u', task', can') = kept k u task_k in
      let busy = (can' (λ i. absurd (ground (arith, good_k))) can_k).not_ready in
      (
        w',
        runs,
        cpu,
        await_resume_not_ready running k good_k d local n u' found there at_local nh task' rsp'
            busy,
        resume_ready k d local n v rsp' running.sound running.turn good_k found there at_local nh
            (get_task-put_task w'.pool k u' v task' k ∙ ground arith) ready,
      )
