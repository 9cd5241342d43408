-- ===== src/Program/Runs.antt =====
-- Every state of a run is a program in the sense of `IsProgram`.
use c_async_await.Base.{ℕ, ◌<◌, ◌≡◌, ◌≢◌, sym, ◌∙◌, Bool, true, none, some, List, [], ◌∷◌, arith}
use mathlib.Core.Path.{subst}
use c_async_await.Pool.{Handle}
use c_async_await.Scheduler.{World}
use c_async_await.GraphScheduler.{Node, Graph, graph_scheduler}
use c_async_await.GraphScheduler.Invariant.{Table}
use c_async_await.Async.{await, parked}
use c_async_await.Program.{IsProgram, Step, skipped, called, waits, returns, Reach, begun, then}
use c_async_await.Program.Keep.{async_skip-IsProgram, await-IsProgram}
use c_async_await.Program.Grow.{async_call-IsProgram, run_async_main-IsProgram}
use c_async_await.Program.Back.{async_return-IsProgram}

abbrev pub IsSome : World Graph → Type 0
IsSome w = (a : ℕ) × (ps : List ℕ) × (ws : ℕ → Bool) × (f : Table) × IsProgram w a ps ws f

wait-IsProgram :
    {w w' : World Graph} (rsp : ℕ) (h : Handle) (c local : ℕ) (m : Node)
    → 0 < rsp
    → w.sched.heap c ≡ some m
    → m.h ≡ h
    → m.in_queue ≡ true
    → m.parent ≡ none
    → h ≢ w.on_cpu
    → await graph_scheduler w rsp h ≡ some (w', parked local)
    → (a : ℕ) (ps : List ℕ) (ws : ℕ → Bool) (f : Table) → IsProgram w a ps ws f
    → IsSome w'
wait-IsProgram rsp h c local m pos at name flag alone ne e a [] ws f r =
    let (n, at_a, _) = r.runs.sound.live a (ground arith) in
    let queued = r.runs.sound.flags c m at in absurd (ne (sym name ∙ ground (arith, r.runs.turn)))
wait-IsProgram {w} {w'} rsp h c local m pos at name flag alone ne e a (b ∷ bs) ws f r =
    let other : c ≢ a = λ i. ne (sym name ∙ ground (arith, r.runs.turn)) in
    let (w₁, runs, is, _, _) = await-IsProgram r rsp c m pos at flag alone other in
    let runs' : await graph_scheduler w rsp h ≡ some (w₁, parked c) = rw (← name) runs in
    let same : w₁ ≡ w' = ground arith in subst IsSome same (_, _, _, _, is)

-- Every call of the running coroutine leaves a program.
pub Step-IsProgram : {w w' : World Graph} → Step w w' → IsSome w → IsSome w'
Step-IsProgram (skipped rsp pos e) (a, ps, ws, f, r) =
    let (w₁, runs, is) = async_skip-IsProgram r rsp pos in
    let same : w₁ ≡ _ = ground arith in subst IsSome same (_, _, _, _, is)
Step-IsProgram (called base fn argument h pos space e) (a, ps, ws, f, r) =
    let (w₁, runs, is) = async_call-IsProgram r base fn argument pos space in
    let same : w₁ ≡ _ = ground arith in subst IsSome same (_, _, _, _, is)
Step-IsProgram (waits rsp h c local m pos at name flag alone ne e) (a, ps, ws, f, r) =
    wait-IsProgram rsp h c local m pos at name flag alone ne e a ps ws f r
Step-IsProgram (returns result t task alive ne e) (a, ps, ws, f, r) =
    let (n, at, _) = r.runs.sound.live a (ground arith) in
    let here : n.h ≡ _ = ground (arith, r.runs.turn) in
    let (w₁, runs, (b, bs, ws', is)) =
      async_return-IsProgram r n at t (rw here task) ne alive result in
    let same : w₁ ≡ _ = ground arith in subst IsSome same (b, bs, ws', f, is)

-- In every state of a run under the graph scheduler, from the start of the first coroutine on a
-- stack that is not NULL, by calls of `async_skip`, of `async_call` with space, of `await` of a
-- queued task that nobody awaits, and of `async_return` by a coroutine that is neither the first
-- nor an orphan, the program is well formed: what is awaited is waited for by one coroutine,
-- whoever waits has a task that can run, and leads to a task that is queued.
pub Reach-IsProgram :
    {base main_fn argument : ℕ} {w : World Graph}
    → 0 < base
    → Reach base main_fn argument w
    → IsSome w
Reach-IsProgram {base} {main_fn} {argument} pos (begun e) =
    let (w₁, runs, is) = run_async_main-IsProgram base main_fn argument pos in
    let same : w₁ ≡ _ = ground arith in subst IsSome same (_, _, _, _, is)
Reach-IsProgram pos (then x s) = Step-IsProgram s (Reach-IsProgram pos x)
