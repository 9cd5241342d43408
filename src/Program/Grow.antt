-- ===== src/Program/Grow.antt =====
-- `run_async_main` and `async_call` in a whole program.
use c_async_await.Base.{
  ℕ, ◌+◌, ◌<◌, ◌≡◌, ◌≢◌, refl, sym, ◌∙◌, Bool, true, false, Option, none, some, List, [], ◌∷◌, ◌++◌,
  ◌==◌, arith, mem, mem-append, length, inl, inr, Bool-cases, ok,
}
use c_async_await.HashMap.{HashNode}
use c_async_await.Pool.{Handle, Task, get_task}
use c_async_await.Pool.FreeList.{get_task-some, IsStarted}
use c_async_await.Scheduler.{World}
use c_async_await.GraphScheduler.{Graph, graph_vtable}
use c_async_await.GraphScheduler.Invariant.{
  Table, IsHandle, parent_at, int_diff, int_diff_self, int_diff_zero,
}
use c_async_await.GraphScheduler.Register.{bound, entry, new_task}
use c_async_await.Async.{async_call, run_async_main}
use c_async_await.Async.Start.{start, first_node, run_async_main_lem, async_call-new_lem}
use c_async_await.Program.{IsProgram, HasSpace, alive, arrives}
use c_async_await.Program.Ways.{Leads-map}

-- Another key of the table keeps its entry.
pub bound_other :
    (f : Table) (h : Handle) (a : ℕ) (k : Handle) (e : HashNode ℕ ℕ)
    → IsHandle h
    → IsHandle k
    → f h ≡ none
    → f k ≡ some e
    → (bound f h a k ≡ some e) × (h ≢ k)
bound_other f h a k e good good' was found =
    let apart : int_diff k h ≢ 0 =
      λ i. let j = int_diff_zero k h good' good i in absurd (ground arith) in
    (ground arith, λ i. absurd (ground arith))

module _ {w : World Graph} {a : ℕ} {ps : List ℕ} {ws : ℕ → Bool} {f : Table}
    (r : IsProgram w a ps ws f) where
  -- The next slot has no entry in the table.
  pub unused_handle : IsHandle (length w.pool.tasks + 1) → f (length w.pool.tasks + 1) ≡ none
  unused_handle good = go (f (length w.pool.tasks + 1)) refl
    where
      go :
          (o : Option (HashNode ℕ ℕ))
          → f (length w.pool.tasks + 1) ≡ o
          → f (length w.pool.tasks + 1) ≡ none
      go none e = e
      go (some x) e =
          let (t, task) = r.keyed (length w.pool.tasks + 1) x good e in
          let (_, inside, _) = get_task-some w.pool (length w.pool.tasks + 1) t task in
          absurd (omega arith)

  -- The next node is nowhere yet.
  unused_node : alive a ps ws w.sched.fresh ≡ false
  unused_node =
      let gone = r.runs.sound.below w.sched.fresh (omega arith) in
      elim (Bool-cases (mem w.sched.fresh (a ∷ ps))) [
        | inl q ↦ let (n, at, _) = r.runs.sound.live w.sched.fresh q in absurd (ground arith)
        | inr q ↦ elim (Bool-cases (ws w.sched.fresh)) [
          | inl x ↦
              let (h, ((e, fe, ve, good), _)) = r.waits w.sched.fresh x in
              let (b, n, v, at, _) = r.runs.sound.named h e good fe in absurd (ground arith)
          | inr x ↦ ground arith
        ]
      ]

  alive_called :
      (x : ℕ)
      → alive a (ps ++ w.sched.fresh ∷ []) ws x ≡ true
      → w.sched.fresh ≢ x
      → alive a ps ws x ≡ true
  alive_called x q ne = ground (arith, mem-append x ps (w.sched.fresh ∷ []))

  -- A call, with the new task and its node.
  pub async_call_lem :
      (base fn argument : ℕ)
      → 0 < base
      → HasSpace w
      → (w' : World Graph) × (async_call graph_vtable (some base) fn argument w
          ≡ ok (w', length w.pool.tasks + 1))
        × IsProgram w' a
            (ps ++ w.sched.fresh ∷ [])
            ws
            (bound f (length w.pool.tasks + 1) w.sched.fresh)
        × ((t : Task) × (get_task w'.pool (length w.pool.tasks + 1) ≡ some t)
            × IsStarted t (length w.pool.tasks + 1) fn argument)
        × (w'.sched.heap w.sched.fresh ≡ some (new_task (length w.pool.tasks + 1)))
        × ((k : Handle) → length w.pool.tasks + 1 ≢ k → get_task w'.pool k ≡ get_task w.pool k)
  async_call_lem base fn argument pos space =
      let h = length w.pool.tasks + 1 in
      let good : IsHandle h = omega (arith, space.handles) in
      let was = unused_handle good in
      let (w', runs, (running, _, (t, task, started)), (new, old, others)) =
        async_call-new_lem fn argument space.cells space.nodes (inr space.places) base r.runs pos
          space.slots space.handles was in
      let parents : (x : ℕ) → w.sched.fresh ≢ x → parent_at w'.sched x ≡ parent_at w.sched x =
        λ x ne. ground (arith, old x ne) in
      let childless : parent_at w'.sched w.sched.fresh ≡ none = ground (arith, new) in
      (
        w',
        runs,
        record {
          runs = running;
          apart =
              λ x q. ground (arith, unused_node, r.apart x q, mem-append x ps (w.sched.fresh ∷ []));
          waits = λ x q.
              let (k, ((e, fe, ve, good'), (v, tv, cv))) = r.waits x q in
              let (fe', ne) = bound_other f h w.sched.fresh k e good good' was fe in
              (k, ((e, fe', ve, good'), (v, others k ne ∙ tv, cv)));
          awaited = λ x p q up.
              let ne : w.sched.fresh ≢ x = λ i. absurd (ground (arith, childless)) in
              r.awaited x p (alive_called x q ne) (sym (parents x ne) ∙ up);
          once = λ x y p q q' e e'.
              let ne : w.sched.fresh ≢ x = λ i. absurd (ground (arith, childless)) in
              let ne' : w.sched.fresh ≢ y = λ i. absurd (ground (arith, childless)) in
              r.once x y p (alive_called x q ne) (alive_called y q' ne') (sym (parents x ne) ∙ e)
                (sym (parents y ne') ∙ e');
          keyed = λ k e good' found. elim (Bool-cases (int_diff k h == 0)) [
            | inl z ↦
                let same : k ≡ h = int_diff_zero k h good' good (ground arith) in rw same (t, task)
            | inr z ↦
                let (v, tv) = r.keyed k e good' (ground arith) in
                let ne : h ≢ k = λ i. absurd (ground arith) in (v, others k ne ∙ tv)
          ];
          main =
              let (e, fe, ve) = r.main in
              (e, (bound_other f h w.sched.fresh 1 e good (omega arith) was fe).0, ve);
          main_alive = ground (arith, mem-append first_node ps (w.sched.fresh ∷ []), r.main_alive);
          leads = λ x q. elim (Bool-cases (w.sched.fresh == x)) [
            | inl e ↦ arrives (ground (arith, mem-append x ps (w.sched.fresh ∷ [])))
            | inr e ↦
                Leads-map (λ y i. ground (arith, mem-append y ps (w.sched.fresh ∷ [])))
                  (λ y p i.
                    let gone = r.runs.sound.below w.sched.fresh (omega arith) in
                    let ne : w.sched.fresh ≢ y = λ j. absurd (ground arith) in parents y ne ∙ i)
                  (r.leads x (alive_called x q (ground arith)))
          ];
        },
        (t, task, started),
        new,
        others,
      )

  -- In a program with space, with a stack that is not NULL, `async_call` succeeds and leaves a
  -- program in which the same nodes wait.
  pub async_call-IsProgram :
      (base fn argument : ℕ)
      → 0 < base
      → HasSpace w
      → (w' : World Graph) × (async_call graph_vtable (some base) fn argument w
          ≡ ok (w', length w.pool.tasks + 1))
        × IsProgram w' a
            (ps ++ w.sched.fresh ∷ [])
            ws
            (bound f (length w.pool.tasks + 1) w.sched.fresh)
  async_call-IsProgram base fn argument pos space =
      let (w', runs, is, _, _, _) = async_call_lem base fn argument pos space in (w', runs, is)

-- With a stack that is not NULL, `run_async_main` leaves a program in which no node waits.
pub run_async_main-IsProgram :
    (base main_fn argument : ℕ)
    → 0 < base
    → (w : World Graph) × (run_async_main graph_vtable (some base) main_fn argument start ≡ ok w)
      × IsProgram w first_node [] (λ _. false) (bound (λ _. none) 1 first_node)
run_async_main-IsProgram base main_fn argument pos =
    let (w, runs, running, _, (t, task, _, _, _), node) =
      run_async_main_lem base main_fn argument pos in
    (
      w,
      runs,
      record {
        runs = running;
        apart = λ x q. ground arith;
        waits = λ x q. absurd (ground arith);
        awaited = λ x p q up. absurd (ground (arith, node));
        once = λ x y p q q' e e'. ground arith;
        keyed = λ k e good found. elim (Bool-cases (int_diff k 1 == 0)) [
          | inl z ↦
              let same : k ≡ 1 = int_diff_zero k 1 good (omega arith) (ground arith) in
              rw same (t, task)
          | inr z ↦ absurd (ground arith)
        ];
        main = (entry 1 first_node, ground (arith, int_diff_self 1), refl);
        main_alive = ground arith;
        leads = λ x q. arrives (ground arith);
      },
    )
