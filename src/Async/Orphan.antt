-- ===== src/Async/Orphan.antt =====
-- `async_return` of an orphan under the graph scheduler: nobody waits for it, and its slot and its
-- node are free at once.
use c_async_await.Base.{
  ℕ, ◌≡◌, ◌≢◌, refl, sym, ◌∙◌, ap, true, false, none, some, List, ◌∷◌, ◌==◌, arith, mem, ok,
}
use mathlib.Core.Path.{subst}
use c_async_await.HashMap.{HashNode}
use c_async_await.HashMap.Map.{update}
use c_async_await.Pool.{is_free, free, Handle, Task, TaskPool, get_task, put_task}
use c_async_await.Pool.Update.{get_task-put_task, put_task-IsPool}
use c_async_await.Pool.FreeList.{IsPool, release_slot-IsPool}
use c_async_await.GraphScheduler.{Node, Graph, graph_vtable, graph_current_task, graph_finish_task}
use c_async_await.GraphScheduler.Invariant.{
  Table, IsSound, IsHandle, handle_at, handle_keys, int_diff_zero,
}
use c_async_await.GraphScheduler.Turns.{graph_current_task-IsSound}
use c_async_await.GraphScheduler.Free.{graph_free_task-IsSound}
use c_async_await.GraphScheduler.Finish.{NobodyWaits, graph_finish_task-IsSound_next}
use c_async_await.Async.Running.{IsRunning, same_node}
use c_async_await.Scheduler.{
  World, current_task_handle, finish_current_task, free_task, async_switch,
}
use c_async_await.Scheduler.Switch.{CanRun, async_switch-IsPool_last}
use c_async_await.Async.{async_return, async_free}
use c_async_await.Async.Return.{CanRun-entered, finished}
use c_async_await.Async.Leave.{untouched}

-- The table without a handle.
abbrev pub unbound : Table → Handle → Table
unbound f h = update handle_keys f h none

unbound_other :
    (f : Table) (h k : Handle) (e : HashNode ℕ ℕ)
    → IsHandle h
    → IsHandle k
    → h ≢ k
    → f k ≡ some e
    → unbound f h k ≡ some e
unbound_other f h k e good good' ne found =
    let apart : handle_keys.diff k h ≢ 0 = λ i. ne (sym (int_diff_zero k h good' good i)) in
    ground arith

-- The steps of `async_return` of an orphan.
async_return-eq_orphan :
    (w w₃ w' : World Graph) (g' : Graph) (fin next result : ℕ) (t : Task)
    → graph_current_task w.sched ≡ some fin
    → fin ≢ 1
    → graph_finish_task w.sched ≡ some (fin, next, g')
    → get_task w.pool fin ≡ some t
    → t.orphaned ≡ true
    → async_free graph_vtable
        (record w { pool = put_task w.pool fin (finished t result); sched = g' })
        fin
      ≡ some w₃
    → async_switch w₃ 0 0 next ≡ some w'
    → async_return graph_vtable w result ≡ ok w'
unfolding async_return current_task_handle finish_current_task graph_vtable
async_return-eq_orphan w w₃ w' g' fin next result t cur ne finishes task orphan frees switched =
    let other : fin == 1 ≡ false = ground arith in
    ground (arith, cur, other, finishes, task, orphan, frees, switched)

-- A finished task is freed, with its node, which is not queued.
freed :
    (w : World Graph) {ps : List ℕ} {f : Table} {fl : List Handle} (h : Handle) (t : Task)
    (e : HashNode ℕ ℕ) (c : ℕ) (m : Node)
    → IsSound w.sched ps f
    → IsPool w.pool fl
    → IsHandle h
    → f h ≡ some e
    → e.val ≡ some c
    → w.sched.heap c ≡ some m
    → m.h ≡ h
    → mem c ps ≡ false
    → get_task w.pool h ≡ some t
    → is_free t.state ≡ false
    → (w' : World Graph) × (async_free graph_vtable w h ≡ some w')
      × IsSound w'.sched ps (unbound f h)
      × IsPool w'.pool (h ∷ fl)
      × ((b : ℕ) → c ≢ b → w'.sched.heap b ≡ w.sched.heap b)
      × ((k : Handle) → h ≢ k → get_task w'.pool k ≡ get_task w.pool k)
      × (get_task w'.pool h ≡ some (record t { state = free; handle = w.pool.free_task }))
unfolding async_free free_task graph_vtable
freed w {fl = fl} h t e c m s p good entry val at name idle task alive =
    let (g', frees, s', _, same) = graph_free_task-IsSound s h good e c m entry val at name idle in
    let (p', releases, sp, now, others) =
      release_slot-IsPool h t p task (sym (p.exact h t task) ∙ alive) in
    let named : h == 0 ≡ false = ground (arith, good) in
    (
      record w { pool = p'; sched = g' },
      ground (arith, named, frees, releases),
      s',
      sp,
      same,
      others,
      now,
    )

module _ {w : World Graph} {a : ℕ} {ps : List ℕ} {f : Table} {fl : List Handle}
    (r : IsRunning w a ps f fl) (n : Node) (at : w.sched.heap a ≡ some n) where
  -- Another queued node has another handle.
  other_handle : (c : ℕ) (k : Node) → mem c ps ≡ true → w.sched.heap c ≡ some k → n.h ≢ k.h
  other_handle c k q old i = absurd (
      ground
        (arith, same_node r a c n k (ground arith) (ground arith) at old i, r.sound.distinct.0))

  -- The next node goes on, when the orphan is gone.
  goes_on :
      (w₃ : World Graph) {fl' : List Handle} (b : ℕ) (bs : List ℕ)
      → ps ≡ b ∷ bs
      → IsSound w₃.sched (b ∷ bs) (unbound f n.h)
      → IsPool w₃.pool fl'
      → ((c : ℕ) (k : Node)
          → mem c ps ≡ true
          → w₃.sched.heap c ≡ some k
          → (k' : Node) × (w.sched.heap c ≡ some k') × (k'.h ≡ k.h))
      → ((c : ℕ) (k : Node)
          → mem c ps ≡ true
          → w.sched.heap c ≡ some k
          → (v : Task) × (get_task w₃.pool k.h ≡ some v) × CanRun v)
      → (w' : World Graph) × (async_switch w₃ 0 0 (handle_at w.sched b) ≡ some w')
        × (w'.on_cpu ≡ handle_at w.sched b)
        × IsRunning w' b bs (unbound f n.h) fl'
        × (get_task w'.pool n.h ≡ get_task w₃.pool n.h)
  goes_on w₃ b bs pe s₃ sp₃ before runnable =
      let inside : (c : ℕ) → mem c (b ∷ bs) ≡ true → mem c ps ≡ true = λ c q. rw pe q in
      let b_in : mem b ps ≡ true = inside b (ground arith) in
      let (m, bt, posm) = r.sound.live b (ground arith) in
      let (u, task_b, can_b) = runnable b m b_in bt in
      let (_, _, _, good) = r.owner a n (ground arith) at in
      let there : handle_at w.sched b ≡ m.h = ground arith in
      let apart = other_handle b m b_in bt in
      let (w', switched, cpu, sched, sp, law) =
        async_switch-IsPool_last w₃ sp₃ 0 m.h u task_b can_b in
      (
        w',
        rw there switched,
        rw there cpu,
        record {
          sound = rw sched s₃;
          pool = sp;
          owner = λ c k q at_c.
              let (k', old, same) = before c k (inside c q) (rw (← sched) at_c) in
              let (e, fe, ve, gk) = r.owner c k' (ground (arith, inside c q)) old in
              let ne = other_handle c k' (inside c q) old in
              rw (← same) (e, unbound_other f n.h k'.h e good gk ne fe, ve, gk);
          tasks = λ c k q at_c.
              let (k', old, same) = before c k (inside c q) (rw (← sched) at_c) in
              let (v, tv, cv) = runnable c k' (inside c q) old in
              let (v', after, cv') = CanRun-entered m.h k'.h u v can_b cv in
              rw (← same) (v', law k'.h ∙ rw tv after, cv');
          turn =
              let (m', now, _) = s₃.live b (ground arith) in
              let (k, old, same) = before b m' b_in now in ground (arith, cpu, sched);
        },
        ground (arith, law n.h, apart),
      )

module _ {w : World Graph} {a : ℕ} {ps : List ℕ} {f : Table} {fl : List Handle}
    (r : IsRunning w a ps f fl) (n : Node) (t : Task) (at : w.sched.heap a ≡ some n)
    (task : get_task w.pool n.h ≡ some t) (not_main : w.on_cpu ≢ 1) (orphan : t.orphaned ≡ true)
    (result : ℕ) (nw : NobodyWaits r.sound n) where
  -- In a well formed program, when an orphan other than the first coroutine returns, nobody waits
  -- for it and another task is queued behind it, `async_return` succeeds: the next task of the
  -- queue has the processor, the program stays well formed, the handle of the orphan has no table
  -- entry, and its slot is FREE and the first of the free list.
  pub async_return-IsRunning_orphan :
      (b : ℕ) (bs : List ℕ)
      → ps ≡ b ∷ bs
      → (w' : World Graph) × (async_return graph_vtable w result ≡ ok w')
        × (w'.on_cpu ≡ handle_at w.sched b)
        × IsRunning w' b bs (unbound f n.h) (n.h ∷ fl)
        × ((u : Task) × (get_task w'.pool n.h ≡ some u) × (u.state ≡ free))
  async_return-IsRunning_orphan b bs pe =
      let fin_t : Task = finished t result in
      let can = r.tasks a n (ground arith) at in
      let (d, fd, vd, good) = r.owner a n (ground arith) at in
      let cur = graph_current_task-IsSound r.sound in
      let here_n : handle_at w.sched a ≡ n.h = ground arith in
      let (g', fin, s', names, _) = graph_finish_task-IsSound_next r.sound pe n at nw in
      let alive : is_free t.state ≡ false = ground (arith, can.2.not_free) in
      let p₁ : TaskPool = put_task w.pool n.h fin_t in
      let law₁ = get_task-put_task w.pool n.h t fin_t task in
      let sp₁ = put_task-IsPool w.pool n.h t fin_t task (sym alive) refl r.pool refl in
      let w₂ : World Graph = record w { pool = p₁; sched = g' } in
      let (a', n', va, at', name') = s'.named n.h d good fd in
      let here : a' ≡ a = ground arith in
      let (w₃, frees, s₃, sp₃, heaps, pools, now) =
        freed w₂ n.h fin_t d a' n' s' sp₁ good fd va at' name' (ground (arith, r.sound.distinct.0))
          (law₁ n.h ∙ ground arith) refl in
      let out : (c : ℕ) → mem c ps ≡ true → a' ≢ c =
        λ c q i. absurd (ground (arith, r.sound.distinct.0)) in
      let (w', switched, cpu, running, same) =
        goes_on r n at w₃ b bs pe (subst (λ qs. IsSound w₃.sched qs (unbound f n.h)) pe s₃) sp₃
          (λ c k q e. names c k (sym (heaps c (out c q)) ∙ e))
          (λ c k q e.
            let (v, tv, cv) = untouched r n t at task result c k q e in
            (v, pools k.h (other_handle r n at c k q e) ∙ tv, cv)) in
      (
        w',
        async_return-eq_orphan w w₃ w' g' n.h (handle_at w.sched b) result t (cur ∙ ap some here_n)
            (λ i. not_main (sym r.turn ∙ (here_n ∙ i))) fin task orphan frees switched,
        cpu,
        running,
        (record fin_t { state = free; handle = p₁.free_task }, same ∙ now, refl),
      )
