-- ===== src/Program.antt =====
-- A whole program under the graph scheduler: the calls of src/async.c in the order in which a run
-- makes them, by any of its coroutines, and what holds between them.
pub mod Ways
pub mod Keep
pub mod Grow
pub mod Back
pub mod Runs
pub mod Orphan
pub mod Any
pub mod All
use c_async_await.Base.{
  ℕ, ◌+◌, ◌*◌, ◌^◌, ◌≤◌, ◌<◌, ◌≡◌, ◌≢◌, Bool, true, false, Option, none, some, List, [], ◌∷◌,
  if◌then◌else◌, mem, length, ok, int_max,
}
use c_async_await.HashMap.{HashNode}
use c_async_await.Pool.{Handle, Task, get_task}
use c_async_await.Scheduler.{World, async_skip}
use c_async_await.Scheduler.Switch.{CanRun}
use c_async_await.GraphScheduler.{Node, Graph, graph_vtable, graph_scheduler}
use c_async_await.GraphScheduler.Invariant.{Table, IsHandle, parent_at}
use c_async_await.Async.{run_async_main, async_call, async_return, await, parked}
use c_async_await.Async.Running.{IsRunning}
use c_async_await.Async.Start.{start, first_node}

-- The pool, the table and the queue can still grow.
pub record HasSpace (w : World Graph) : Type 0 where
  pub slots : w.pool.cap * 2 + 10 ≤ int_max
  pub handles : length w.pool.tasks + 1 < 2 ^ 31
  pub cells : w.sched.handle_to_node.cap * 2 + 10 < 2 ^ 64
  pub nodes : w.sched.handle_to_node.node_max < int_max
  pub places : w.sched.queue.cap * 2 + 10 ≤ int_max

-- One call of the coroutine that has the processor, up to the point where a coroutine runs again.
-- A coroutine awaits queued tasks that nobody awaits, and one that returns is not orphaned.
pub data Step : World Graph → World Graph → Type 0 where
  skipped :
      {w w' : World Graph} (rsp : ℕ) → 0 < rsp → async_skip graph_vtable w rsp ≡ some w' → Step w w'
  called :
      {w w' : World Graph} (base fn argument : ℕ) (h : Handle)
      → 0 < base
      → HasSpace w
      → async_call graph_vtable (some base) fn argument w ≡ ok (w', h)
      → Step w w'
  waits :
      {w w' : World Graph} (rsp : ℕ) (h : Handle) (c local : ℕ) (m : Node)
      → 0 < rsp
      → w.sched.heap c ≡ some m
      → m.h ≡ h
      → m.in_queue ≡ true
      → m.parent ≡ none
      → h ≢ w.on_cpu
      → await graph_scheduler w rsp h ≡ some (w', parked local)
      → Step w w'
  returns :
      {w w' : World Graph} (result : ℕ) (t : Task)
      → get_task w.pool w.on_cpu ≡ some t
      → t.orphaned ≡ false
      → w.on_cpu ≢ 1
      → async_return graph_vtable w result ≡ ok w'
      → Step w w'

-- The states of a run, from where the first coroutine starts.
pub data Reach (base main_fn argument : ℕ) : World Graph → Type 0 where
  begun :
      {w : World Graph}
      → run_async_main graph_vtable (some base) main_fn argument start ≡ ok w
      → Reach base main_fn argument w
  then :
      {w w' : World Graph}
      → Reach base main_fn argument w
      → Step w w'
      → Reach base main_fn argument w'

-- A node is queued or waits (`ws`).
abbrev pub alive : ℕ → List ℕ → (ℕ → Bool) → ℕ → Bool
alive a ps ws b = if mem b (a ∷ ps) then true else ws b

-- A node leads to another: that one is waited for by it, or by one that it leads to. Every such
-- way ends at a queued node.
pub data Leads (g : Graph) (queued : ℕ → Bool) : ℕ → Type 0 where
  arrives : {b : ℕ} → queued b ≡ true → Leads g queued b
  through : {b : ℕ} (c : ℕ) → parent_at g c ≡ some b → Leads g queued c → Leads g queued b

-- `h` is the handle of a node that waits, and its task goes on when it has the processor.
abbrev pub Waiting : World Graph → Table → ℕ → Handle → Type 0
Waiting w f b h =
    ((e : HashNode ℕ ℕ) × (f h ≡ some e) × (e.val ≡ some b) × IsHandle h)
    × ((t : Task) × (get_task w.pool h ≡ some t) × CanRun t)

-- `a` is the node in front of the queue, `ps` the rest, `ws` are the nodes that wait for a result,
-- and `f` is the table.
pub record IsProgram (w : World Graph) (a : ℕ) (ps : List ℕ) (ws : ℕ → Bool) (f : Table)
    : Type 0 where
  pub runs : IsRunning w a ps f []
  pub apart : (b : ℕ) → ws b ≡ true → mem b (a ∷ ps) ≡ false
  pub waits : (b : ℕ) → ws b ≡ true → (h : Handle) × Waiting w f b h
  pub awaited : (b p : ℕ) → alive a ps ws b ≡ true → parent_at w.sched b ≡ some p → ws p ≡ true
  pub once :
      (b c p : ℕ)
      → alive a ps ws b ≡ true
      → alive a ps ws c ≡ true
      → parent_at w.sched b ≡ some p
      → parent_at w.sched c ≡ some p
      → b ≡ c
  pub keyed :
      (k : Handle) (e : HashNode ℕ ℕ)
      → IsHandle k
      → f k ≡ some e
      → (t : Task) × (get_task w.pool k ≡ some t)
  pub main : (e : HashNode ℕ ℕ) × (f 1 ≡ some e) × (e.val ≡ some first_node)
  pub main_alive : alive a ps ws first_node ≡ true
  pub leads : (b : ℕ) → alive a ps ws b ≡ true → Leads w.sched (λ x. mem x (a ∷ ps)) b
