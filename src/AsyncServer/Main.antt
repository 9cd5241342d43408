-- ===== src/AsyncServer/Main.antt =====
-- `async_main` of the server under the graph scheduler.
use c_async_await.Base.{
  ℕ, ◌+◌, ◌<◌, ◌≡◌, ◌≢◌, refl, ◌∙◌, ap, Bool, true, some, List, [], ◌∷◌, ◌++◌, arith, length, ok,
  bind, sym,
}
use c_async_await.Scheduler.{World}
use c_async_await.GraphScheduler.{Graph, graph_vtable, graph_scheduler}
use c_async_await.Pool.{Handle, Task, get_task}
use c_async_await.GraphScheduler.Invariant.{Table, IsHandle, handle_at, parent_at, int_diff_self}
use c_async_await.GraphScheduler.Register.{new_task, entry, bound}
use c_async_await.Program.Orphan.{orphaned_task}
use c_async_await.Async.{async_call, async_orphan, parked}
use c_async_await.Listen.{Address, none_usable, open_socket-first}
use c_async_await.Program.{IsProgram, HasSpace}
use c_async_await.Program.Keep.{await-IsProgram, with_waiting}
use c_async_await.Program.Grow.{async_call_lem, bound_other, unused_handle}
use c_async_await.AsyncServer.{run_loops, async_main}
use c_async_await.AsyncServer.Keep.{call_orphan}

-- The coroutine with the handle `h` is to run `fn` with that argument.
abbrev pub Runs : World Graph → Handle → ℕ → ℕ → Type 0
Runs w h fn argument =
    (t : Task) × (get_task w.pool h ≡ some t) × (t.fn ≡ fn) × (t.argument ≡ argument)

-- A node of the table stands for its handle.
stands_for :
    {w : World Graph} {a : ℕ} {ps : List ℕ} {ws : ℕ → Bool} {f : Table} (h x : ℕ)
    → IsProgram w a ps ws f
    → IsHandle h
    → f h ≡ some (entry h x)
    → handle_at w.sched x ≡ h
stands_for h x r good found =
    let (b, n, v, at, nh) = r.runs.sound.named h (entry h x) good found in
    let same : b ≡ x = ground arith in ground arith

-- What the two coroutines of the server are.
pub record Started (w : World Graph) (stats_fn accept_fn accept_socket a b c : ℕ) : Type 0 where
  pub stats_node : handle_at w.sched b ≡ w.on_cpu
  pub stats :
      (t : Task) × (get_task w.pool w.on_cpu ≡ some t)
      × (t.fn ≡ stats_fn)
      × (t.argument ≡ 0)
      × (t.orphaned ≡ true)
  pub accepts : Runs w (handle_at w.sched c) accept_fn accept_socket
  pub awaits : parent_at w.sched c ≡ some a

module _ {w : World Graph} {a : ℕ} {ws : ℕ → Bool} {f : Table} (r : IsProgram w a [] ws f)
    (base base' server_stats_fn accept_loop accept_socket rsp : ℕ) (pos : 0 < base)
    (pos' : 0 < base') (saved : 0 < rsp) (space : HasSpace w)
    (later : (w₁ w₂ : World Graph)
      → async_call graph_vtable (some base) server_stats_fn 0 w ≡ ok (w₁, length w.pool.tasks + 1)
      → async_orphan graph_vtable w₁ (length w.pool.tasks + 1) ≡ some w₂
      → HasSpace w₂) where
  run_loops-IsProgram :
      (w' : World Graph) × (c : ℕ) × (f' : Table) × (run_loops graph_scheduler
          (some base)
          (some base')
          server_stats_fn
          accept_loop
          accept_socket
          rsp
          w
        ≡ ok (w', parked c))
      × IsProgram w' w.sched.fresh (c ∷ []) (with_waiting a ws) f'
      × Started w' server_stats_fn accept_loop accept_socket a w.sched.fresh c
  unfolding run_loops graph_scheduler
  run_loops-IsProgram =
      let h₁ = length w.pool.tasks + 1 in
      let good₁ : IsHandle h₁ = omega (arith, space.handles) in
      let (w₁, w₂, runs, orphans, is₂, (u, task_u, (_, _, fn_u, arg_u, _))) =
        call_orphan r base server_stats_fn 0 pos space in
      let space₂ = later w₁ w₂ runs orphans in
      let h₂ = length w₂.pool.tasks + 1 in
      let good₂ : IsHandle h₂ = omega (arith, space₂.handles) in
      let (w₃, runs', is₃, (v, task_v, (_, _, fn_v, arg_v, _)), node, others) =
        async_call_lem is₂ base' accept_loop accept_socket pos' space₂ in
      let c = w₂.sched.fresh in
      let other : c ≢ a = λ i.
        let (n, at, _) = is₂.runs.sound.live a (ground arith) in
        let gone = is₂.runs.sound.below c (omega arith) in absurd (ground arith) in
      let (w', waits, is', parent, work) =
        await-IsProgram is₃ rsp c (new_task h₂) saved node refl refl other in
      let f₁ = bound f h₁ w.sched.fresh in
      let found₁ : f₁ h₁ ≡ some (entry h₁ w.sched.fresh) = ground (arith, int_diff_self h₁) in
      let found₂ : bound f₁ h₂ c h₂ ≡ some (entry h₂ c) = ground (arith, int_diff_self h₂) in
      let (kept, apart) =
        bound_other f₁ h₂ c h₁ (entry h₁ w.sched.fresh) good₂ good₁ (unused_handle is₂ good₂)
          found₁ in
      let stats_at : handle_at w'.sched w.sched.fresh ≡ h₁ =
        stands_for h₁ w.sched.fresh is' good₁ kept in
      let accept_at : handle_at w'.sched c ≡ h₂ = stands_for h₂ c is' good₂ found₂ in
      let cpu : h₁ ≡ w'.on_cpu = sym stats_at ∙ is'.runs.turn in
      let (u', now_u, (same_fn, same_arg, same_orphan)) =
        work h₁ (orphaned_task u) (others h₁ apart ∙ task_u) in
      let (v', now_v, (same_fn', same_arg', _)) = work h₂ v task_v in
      (
        w',
        c,
        _,
        rw (runs, orphans, runs', waits) refl,
        is',
        record {
          stats_node = is'.runs.turn;
          stats = rw (← cpu) (u', now_u, same_fn ∙ fn_u, same_arg ∙ arg_u, same_orphan);
          accepts = rw accept_at (v', now_v, same_fn' ∙ fn_v, same_arg' ∙ arg_v);
          awaits = parent;
        },
      )

  -- In a program of the first coroutine alone, with two stacks that are not NULL, space for two
  -- coroutines and a saved stack pointer that is not NULL, when an address has a socket that can be
  -- bound, and none before it does, and `listen` and `fcntl` succeed, `async_main` stops at the
  -- switch of its `await` and leaves a program: an orphan that is to run `server_stats` with
  -- argument 0 has the processor, a coroutine that is to run `accept_loop` with the address of the
  -- socket is alone queued behind it, and the first coroutine waits for that one.
  pub async_main-IsProgram :
      (before : List Address) (info : Address) (after : List Address) (k : ℕ) (opened : List ℕ)
      → none_usable before ≡ true
      → info.socket ≡ some k
      → info.binds ≡ true
      → (w' : World Graph) × (c : ℕ) × (f' : Table) × (async_main graph_scheduler
            (some (before ++ info ∷ after))
            true
            true
            opened
            (some base)
            (some base')
            server_stats_fn
            accept_loop
            accept_socket
            rsp
            w
          ≡ ok (w', parked c))
        × IsProgram w' w.sched.fresh (c ∷ []) (with_waiting a ws) f'
        × Started w' server_stats_fn accept_loop accept_socket a w.sched.fresh c
  unfolding async_main
  async_main-IsProgram before info after k opened e at binds =
      let (w', c, f', runs, is, started) = run_loops-IsProgram in
      (
        w',
        c,
        f',
        ap
              (λ o. bind o λ x.
                run_loops graph_scheduler (some base) (some base') server_stats_fn accept_loop
                  accept_socket rsp w)
              (open_socket-first before info after k opened e at binds)
            ∙ runs,
        is,
        started,
      )
