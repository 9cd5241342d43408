-- ===== src/Program/Back.antt =====
-- `async_return` in a whole program, and the `await` that goes on after it.
use c_async_await.Base.{
  ℕ, ◌≡◌, ◌≢◌, refl, sym, ◌∙◌, Bool, true, false, Option, none, some, List, [], ◌∷◌, ◌==◌,
  if◌then◌else◌, arith, mem, inl, inr, Bool-cases, ok,
}
use c_async_await.HashMap.{HashNode}
use c_async_await.Pool.{Handle, Task, get_task}
use c_async_await.Scheduler.{World}
use c_async_await.GraphScheduler.{Node, Graph, graph_vtable, graph_scheduler}
use c_async_await.GraphScheduler.Invariant.{Table, IsHandle, handle_at, parent_at}
use c_async_await.Async.{async_return, await_resume, got}
use c_async_await.Async.Running.{Keeps}
use c_async_await.Async.Start.{first_node}
use c_async_await.Async.Return.{async_return-parent_lem, finished}
use c_async_await.Async.Leave.{async_return-next_lem}
use c_async_await.Async.Wait.{await_resume-IsRunning}
use c_async_await.Program.{IsProgram, Waiting, alive}
use c_async_await.Program.Keep.{Waiting-after}
use c_async_await.Program.Ways.{Leads-alone, Leads-leave}

-- The nodes that wait when `p` goes on.
abbrev pub without_waiting : ℕ → (ℕ → Bool) → ℕ → Bool
without_waiting p ws x = if p == x then false else ws x

module _ {w : World Graph} {a : ℕ} {ps : List ℕ} {ws : ℕ → Bool} {f : Table}
    (r : IsProgram w a ps ws f) (n : Node) (at : w.sched.heap a ≡ some n) where
  -- The front is the node of its handle alone.
  not_parked : (b : ℕ) (h : Handle) → ws b ≡ true → Waiting w f b h → n.h ≢ h
  not_parked b h q ((e, fe, ve, good), _) i =
      let (d, fd, vd, _) = r.runs.owner a n (ground arith) at in
      let same : a ≡ b = ground arith in absurd (ground (arith, r.apart b q))

  -- The first coroutine is the first node.
  not_first : w.on_cpu ≢ 1 → a ≢ first_node
  not_first ne same =
      let (e, fe, ve) = r.main in
      let (b, m, v, at_b, name) = r.runs.sound.named 1 e (omega arith) fe in
      let here : b ≡ a = ground arith in
      let named : n.h ≡ 1 = ground arith in ne (sym r.runs.turn ∙ ground arith)

  keyed_after :
      (w' : World Graph) (x : Handle) (k : Handle) (e : HashNode ℕ ℕ)
      → Keeps x w w'
      → IsHandle k
      → f k ≡ some e
      → (t : Task) × (get_task w'.pool k ≡ some t)
  keyed_after w' x k e kept good found =
      let (t, task) = r.keyed k e good found in let (t', task', _) = kept k t task in (t', task')

  -- Nobody waits for the front, so another node is queued.
  not_alone : n.parent ≡ none → w.on_cpu ≢ 1 → (b : ℕ) × (bs : List ℕ) × (ps ≡ b ∷ bs)
  not_alone childless ne = go ps refl
    where
      go : (qs : List ℕ) → ps ≡ qs → (b : ℕ) × (bs : List ℕ) × (ps ≡ b ∷ bs)
      go [] e =
          let way = r.leads first_node r.main_alive in
          absurd (not_first ne (sym (Leads-alone {g = w.sched} (ground arith) (rw (← e) way))))
      go (b ∷ bs) e = (b, bs, e)

  -- When `p` goes on, no other node has it as its parent.
  return_awaited :
      (w' : World Graph) (p x y : ℕ)
      → n.parent ≡ some p
      → ((x : ℕ) → parent_at w'.sched x ≡ parent_at w.sched x)
      → (alive a ps ws x ≡ true) × (a ≢ x)
      → parent_at w'.sched x ≡ some y
      → without_waiting p ws y ≡ true
  return_awaited w' p x y up parents (q, ne) i =
      let known = r.awaited x y q (sym (parents x) ∙ i) in
      elim (Bool-cases (p == y)) [
        | inl e ↦
            let same : some y ≡ some p = ground arith in
            absurd (ne (r.once a x p (ground arith) q (ground arith) (sym (parents x) ∙ i ∙ same)))
        | inr e ↦ ground arith
      ]

  module _ (t : Task) (task : get_task w.pool n.h ≡ some t) (not_main : w.on_cpu ≢ 1)
      (kept_alive : t.orphaned ≡ false) (result : ℕ) where
    -- In a program, when a coroutine other than the first returns, is not orphaned, and another
    -- waits for it, `async_return` succeeds and leaves a program in which that one has the
    -- processor.
    return_up :
        (p : ℕ) (h : Handle)
        → n.parent ≡ some p
        → Waiting w f p h
        → (w' : World Graph) × (async_return graph_vtable w result ≡ ok w')
          × (w'.on_cpu ≡ h)
          × IsProgram w' p ps (without_waiting p ws) f
          × (get_task w'.pool n.h ≡ some (finished t result))
    return_up p h up ((d, fd, vd, good), (u, task_u, can_u)) =
        let waits_p : ws p ≡ true = r.awaited a p (ground arith) (ground arith) in
        let (b, m, v, at_b, name) = r.runs.sound.named h d good fd in
        let here : b ≡ p = ground arith in
        let at_p : w.sched.heap p ≡ some m = ground arith in
        let (w', runs, cpu, running, done, parents, kept) =
          async_return-parent_lem r.runs n t at task not_main kept_alive result p m d u up at_p
            (r.apart p waits_p) (rw name fd) vd (rw name good) (rw name task_u) can_u in
        let al : (x : ℕ)
            → alive p ps (without_waiting p ws) x ≡ true
            → (alive a ps ws x ≡ true) × (a ≢ x) =
          λ x q. (
            ground (arith, waits_p),
            λ i. absurd (ground (arith, r.apart p waits_p, r.apart x, r.runs.sound.distinct.0)),
          ) in
        (
          w',
          runs,
          cpu ∙ name,
          record {
            runs = running;
            apart = λ x q. ground (arith, r.apart x);
            waits = λ x q.
                let (k, is) = r.waits x (ground arith) in
                (k, Waiting-after w w' n.h f x k kept (not_parked x k (ground arith) is) is);
            awaited = λ x y q i. return_awaited w' p x y up parents (al x q) i;
            once = λ x y z q q' i i'.
                r.once x y z (al x q).0 (al y q').0 (sym (parents x) ∙ i) (sym (parents y) ∙ i');
            keyed = λ k d good found. keyed_after w' n.h k d kept good found;
            main = r.main;
            main_alive = ground (arith, r.main_alive, not_first not_main);
            leads = λ x q.
                Leads-leave ps (λ y i. ground arith) (λ y i. ground arith) parents (al x q).1
                  (r.leads x (al x q).0);
          },
          done,
        )

    -- The same when nobody waits for it: the next node of the queue has the processor.
    return_on :
        (b : ℕ) (bs : List ℕ)
        → n.parent ≡ none
        → ps ≡ b ∷ bs
        → (w' : World Graph) × (async_return graph_vtable w result ≡ ok w') × IsProgram w' b bs ws f
    return_on b bs childless pe =
        let (w', runs, _, running, _, parents, kept) =
          async_return-next_lem r.runs n t at task not_main kept_alive result (inl childless) b bs
            pe in
        let inside : (x : ℕ) → mem x (b ∷ bs) ≡ mem x ps = λ x. rw pe refl in
        let al : (x : ℕ) → alive b bs ws x ≡ true → (alive a ps ws x ≡ true) × (a ≢ x) = λ x q. (
          ground (arith, inside x),
          λ i. absurd (ground (arith, inside x, r.apart x, r.runs.sound.distinct.0)),
        ) in
        (
          w',
          runs,
          record {
            runs = running;
            apart = λ x q. ground (arith, r.apart x q, inside x);
            waits = λ x q.
                let (k, is) = r.waits x q in
                (k, Waiting-after w w' n.h f x k kept (not_parked x k q is) is);
            awaited = λ x y q i. r.awaited x y (al x q).0 (sym (parents x) ∙ i);
            once = λ x y z q q' i i'.
                r.once x y z (al x q).0 (al y q').0 (sym (parents x) ∙ i) (sym (parents y) ∙ i');
            keyed = λ k d good found. keyed_after w' n.h k d kept good found;
            main = r.main;
            main_alive = ground (arith, r.main_alive, not_first not_main, inside first_node);
            leads = λ x q.
                Leads-leave ps (λ y i. inside y ∙ i) (λ y i. absurd (ground arith)) parents
                  (al x q).1 (r.leads x (al x q).0);
          },
        )

    -- In a well formed program, when a coroutine other than the first returns and is not orphaned,
    -- `async_return` succeeds, whether or not another waits for it, and the program stays well
    -- formed: the scheduler never runs out of tasks.
    pub async_return-IsProgram :
        (w' : World Graph) × (async_return graph_vtable w result ≡ ok w')
        × ((b : ℕ) × (bs : List ℕ) × (ws' : ℕ → Bool) × IsProgram w' b bs ws' f)
    async_return-IsProgram = go n.parent refl
      where
        go :
            (o : Option ℕ)
            → n.parent ≡ o
            → (w' : World Graph) × (async_return graph_vtable w result ≡ ok w')
              × ((b : ℕ) × (bs : List ℕ) × (ws' : ℕ → Bool) × IsProgram w' b bs ws' f)
        go none e =
            let (b, bs, pe) = not_alone e not_main in
            let (w', runs, is) = return_on b bs e pe in (w', runs, (b, bs, ws, is))
        go (some p) e =
            let waits_p : ws p ≡ true = r.awaited a p (ground arith) (ground arith) in
            let (h, is) = r.waits p waits_p in
            let (w', runs, _, is', _) = return_up p h e is in
            (w', runs, (p, ps, without_waiting p ws, is'))

    -- In a well formed program, when a coroutine other than the first returns, is not orphaned and
    -- another waits for it, `async_return` succeeds, the one that waits has the processor, and its
    -- `await` goes on with the result that was returned.
    pub async_return-await_resume :
        (p : ℕ)
        → n.parent ≡ some p
        → (w' : World Graph) × (async_return graph_vtable w result ≡ ok w')
          × (handle_at w.sched p ≡ w'.on_cpu)
          × ((rsp : ℕ)
              → await_resume graph_scheduler w' rsp w'.on_cpu n.h a ≡ some (w', got result))
    async_return-await_resume p up =
        let waits_p : ws p ≡ true = r.awaited a p (ground arith) (ground arith) in
        let (h, is) = r.waits p waits_p in
        let (w', runs, cpu, is', left) = return_up p h up is in
        let (d, fd, vd, good) = r.runs.owner a n (ground arith) at in
        let (b, m, v, at_b, name) = is'.runs.sound.named n.h d good fd in
        let here : b ≡ a = ground arith in
        let (e, fe, ve, good_p) = is.0 in
        let (b', m', v', at_p, name') = r.runs.sound.named h e good_p fe in
        let here' : b' ≡ p = ground arith in
        (
          w',
          runs,
          ground (arith, cpu),
          λ rsp.
              await_resume-IsRunning is'.runs n.h good d a m (finished t result) fd vd
                (ground arith) name left rsp refl,
        )
