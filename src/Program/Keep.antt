-- ===== src/Program/Keep.antt =====
-- `async_skip` and `await` in a whole program.
use c_async_await.Base.{
  ℕ, ◌<◌, ◌≡◌, ◌≢◌, refl, sym, ◌∙◌, Bool, true, none, some, List, [], ◌∷◌, ◌==◌, if◌then◌else◌,
  arith, mem, mem-append, inl, inr, Bool-cases, ap,
}
use c_async_await.Pool.{Handle}
use c_async_await.Scheduler.{World, async_skip}
use c_async_await.GraphScheduler.{Node, Graph, graph_vtable, graph_scheduler}
use c_async_await.GraphScheduler.Invariant.{Table, parent_at}
use c_async_await.GraphScheduler.Turns.{front}
use c_async_await.Async.{await, parked}
use c_async_await.Async.Running.{behind, Keeps, KeepsWork}
use c_async_await.Async.Skip.{async_skip_lem}
use c_async_await.Async.Wait.{await_queued_lem}
use c_async_await.Async.Start.{first_node}
use c_async_await.Program.{IsProgram, Waiting, alive}
use c_async_await.Program.Ways.{Leads-map, Leads-wait}

-- A task that waits goes on waiting while others run.
pub Waiting-after :
    (w w' : World Graph) (x : Handle) (f : Table) (b : ℕ) (h : Handle)
    → Keeps x w w'
    → x ≢ h
    → Waiting w f b h
    → Waiting w' f b h
Waiting-after w w' x f b h kept ne (named, (t, task, can)) =
    let (t', task', can') = kept h t task in (named, (t', task', can' ne can))

-- A turn of the queue keeps its members.
mem-turned : (a : ℕ) (ps : List ℕ) (b : ℕ) → mem b (front a ps ∷ behind a ps) ≡ mem b (a ∷ ps)
mem-turned a [] b = ground arith
mem-turned a (c ∷ cs) b = ground (arith, mem-append b cs (a ∷ []))

module _ {w : World Graph} {a : ℕ} {ps : List ℕ} {ws : ℕ → Bool} {f : Table}
    (r : IsProgram w a ps ws f) where
  -- In a program, `async_skip` succeeds and leaves a program in which the same nodes wait.
  pub async_skip-IsProgram :
      (rsp : ℕ)
      → 0 < rsp
      → (w' : World Graph) × (async_skip graph_vtable w rsp ≡ some w')
        × IsProgram w' (front a ps) (behind a ps) ws f
  async_skip-IsProgram rsp pos =
      let (w', runs, running, same, kept) = async_skip_lem rsp pos r.runs in
      let turned = mem-turned a ps in
      let al : (b : ℕ) → alive (front a ps) (behind a ps) ws b ≡ alive a ps ws b =
        λ b. ap (λ m. if m then true else ws b) (turned b) in
      let parents : (x : ℕ) → parent_at w'.sched x ≡ parent_at w.sched x =
        λ x. rw (parent_at, same) refl in
      (
        w',
        runs,
        record {
          runs = running;
          apart = λ b q. turned b ∙ r.apart b q;
          waits = λ b q.
              let (h, is) = r.waits b q in
              (h, Waiting-after w w' 0 f b h kept (λ i. ground (arith, is)) is);
          awaited = λ b p q e. r.awaited b p (sym (al b) ∙ q) (sym (parents b) ∙ e);
          once = λ b c p q q' e e'.
              r.once b c p (sym (al b) ∙ q) (sym (al c) ∙ q') (sym (parents b) ∙ e)
                (sym (parents c) ∙ e');
          keyed = λ k e good found.
              let (t, task) = r.keyed k e good found in
              let (t', task', _) = kept k t task in (t', task');
          main = r.main;
          main_alive = al first_node ∙ r.main_alive;
          leads = λ b q.
              Leads-map (λ x e. turned x ∙ e) (λ x p e. parents x ∙ e) (r.leads b (sym (al b) ∙ q));
        },
      )

-- The nodes that wait when the front `a` begins to.
abbrev pub with_waiting : ℕ → (ℕ → Bool) → ℕ → Bool
with_waiting a ws x = if a == x then true else ws x

module _ {w : World Graph} {a b : ℕ} {bs : List ℕ} {ws : ℕ → Bool} {f : Table}
    (r : IsProgram w a (b ∷ bs) ws f) where
  -- A new parent `a` of `c` is one that waits, and it is that of `c` alone.
  await_once :
      (g' : Graph) (c x y p : ℕ)
      → parent_at g' c ≡ some a
      → ((x : ℕ) → c ≢ x → parent_at g' x ≡ parent_at w.sched x)
      → alive a (b ∷ bs) ws x ≡ true
      → alive a (b ∷ bs) ws y ≡ true
      → parent_at g' x ≡ some p
      → parent_at g' y ≡ some p
      → x ≡ y
  await_once g' c x y p now others ax ay px py =
      let idle : ws a ≡ true → ⊥ = λ q. ground (arith, r.apart a q) in
      elim (Bool-cases (c == x)) [
        | inl q ↦ elim (Bool-cases (c == y)) [
          | inl q' ↦ ground arith
          | inr q' ↦
              let same : c ≡ x = ground arith in
              let up : some p ≡ some a = sym px ∙ rw (← same) now in
              absurd (idle (r.awaited y a ay (sym (others y (ground arith)) ∙ py ∙ up)))
        ]
        | inr q ↦ elim (Bool-cases (c == y)) [
          | inl q' ↦
              let same : c ≡ y = ground arith in
              let up : some p ≡ some a = sym py ∙ rw (← same) now in
              absurd (idle (r.awaited x a ax (sym (others x (ground arith)) ∙ px ∙ up)))
          | inr q' ↦
              r.once x y p ax ay (sym (others x (ground arith)) ∙ px)
                (sym (others y (ground arith)) ∙ py)
        ]
      ]

  await_awaited :
      (g' : Graph) (c x p : ℕ)
      → parent_at g' c ≡ some a
      → ((x : ℕ) → c ≢ x → parent_at g' x ≡ parent_at w.sched x)
      → alive a (b ∷ bs) ws x ≡ true
      → parent_at g' x ≡ some p
      → with_waiting a ws p ≡ true
  await_awaited g' c x p now others ax up = elim (Bool-cases (c == x)) [
    | inl q ↦
        let same : c ≡ x = ground arith in
        let up : some p ≡ some a = sym up ∙ rw (← same) now in ground arith
    | inr q ↦ let known = r.awaited x p ax (sym (others x (ground arith)) ∙ up) in ground arith
  ]

  await_waits :
      (w' : World Graph)
      → Keeps 0 w w'
      → (x : ℕ) → with_waiting a ws x ≡ true
      → (h : Handle) × Waiting w' f x h
  await_waits w' kept x q = elim (Bool-cases (a == x)) [
    | inl e ↦
        let same : a ≡ x = ground arith in
        let (n, at, _) = r.runs.sound.live a (ground arith) in
        let is : Waiting w f a n.h =
          (r.runs.owner a n (ground arith) at, r.runs.tasks a n (ground arith) at) in
        (n.h, Waiting-after w w' 0 f x n.h kept (λ i. ground (arith, is)) (rw (← same) is))
    | inr e ↦
        let (h, is) = r.waits x (ground arith) in
        (h, Waiting-after w w' 0 f x h kept (λ i. ground (arith, is)) is)
  ]

  -- In a program, `await` of another queued node that nobody waits for succeeds and leaves a
  -- program in which the caller waits, and in which it is the parent of that node.
  pub await-IsProgram :
      (rsp : ℕ) (c : ℕ) (m : Node)
      → 0 < rsp
      → w.sched.heap c ≡ some m
      → m.in_queue ≡ true
      → m.parent ≡ none
      → c ≢ a
      → (w' : World Graph) × (await graph_scheduler w rsp m.h ≡ some (w', parked c))
        × IsProgram w' b bs (with_waiting a ws) f
        × (parent_at w'.sched c ≡ some a)
        × KeepsWork w w'
  await-IsProgram rsp c m pos at flag alone other =
      let queued : mem c (b ∷ bs) ≡ true = ground (arith, r.runs.sound.flags c m at) in
      let (e, entry, val, good) = r.runs.owner c m (ground arith) at in
      let (w', runs, running, now, parents, kept, work) =
        await_queued_lem r.runs m.h good e c m entry val at refl alone other rsp pos refl queued in
      let parent : parent_at w'.sched c ≡ some a = ground (arith, now) in
      let al : (x : ℕ) → alive b bs (with_waiting a ws) x ≡ alive a (b ∷ bs) ws x =
        λ x. ground arith in
      (
        w',
        runs,
        record {
          runs = running;
          apart = λ x q. ground (arith, r.apart x, r.runs.sound.distinct.0);
          waits = λ x q. await_waits w' kept x q;
          awaited = λ x p q up. await_awaited w'.sched c x p parent parents (sym (al x) ∙ q) up;
          once = λ x y p q q' e e'.
              await_once w'.sched c x y p parent parents (sym (al x) ∙ q) (sym (al y) ∙ q') e e';
          keyed = λ k e good found.
              let (t, task) = r.keyed k e good found in
              let (t', task', _) = kept k t task in (t', task');
          main = r.main;
          main_alive = al first_node ∙ r.main_alive;
          leads = λ x q.
              Leads-wait (b ∷ bs) queued (ground (arith, at, alone)) parent parents
                (r.leads x (sym (al x) ∙ q));
        },
        parent,
        work,
      )
