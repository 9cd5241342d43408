-- ===== src/GraphScheduler.antt =====
-- src/graph_scheduler.c: a task that waits for another leaves the queue, and the task that finishes
-- puts its waiting parent in front.
pub mod Invariant
pub mod Turns
pub mod Register
pub mod Finish
pub mod Park
pub mod Free
pub mod Verify
use c_async_await.Base.{
  ℕ, zero, suc, ◌+◌, ◌-◌, ◌*◌, ◌%◌, ◌^◌, Bool, true, false, ◌&&◌, Option, none, some, List, [], ◌∷◌,
  ◌++◌, ltb, leb, ◌==◌, if◌then◌else◌, ◌>>=◌, ◌>>◌, guard, not, get_elem?,
}
use c_async_await.Ring.{Ring, empty, push_back, push_front, pop_front, peek_front}
use c_async_await.HashMap.{HashMap, HashNode, NodeRef, find, insert, remove, deref, set_val, deinit}
use c_async_await.Pool.{State, is_ready, Handle, TaskPool}
use c_async_await.Scheduler.{
  SchedulerVTable, Scheduler, World, poll_state, async_switch, current_task_handle, Waited,
  returned, suspended,
}

-- `parent` is a pointer to a node, `none` for NULL.
pub record Node : Type 0 where
  pub parent : Option ℕ
  pub h : Handle
  pub in_queue : Bool

-- `heap` holds the nodes that `calloc` made; it hands out the address `fresh` next.
pub record Graph : Type 0 where
  pub queue : Ring ℕ
  pub handle_to_node : HashMap ℕ ℕ
  pub heap : ℕ → Option Node
  pub fresh : ℕ

abbrev pub put_node : Graph → ℕ → Node → Graph
put_node g a n = record g { heap = λ b. if a == b then some n else g.heap b }

-- `sizeof(int)`
abbrev pub int_size : ℕ
int_size = 4

-- `(int)(long)x - (int)(long)y`, as a bit pattern, for keys that are handles.
unfoldable pub int_eql_fn : ℕ → ℕ → ℕ → Option ℕ
int_eql_fn x y size = do guard (size == int_size); some ((x + 2 ^ 32 - y) % 2 ^ 32)

unfoldable pub int_hash_fn : ℕ → ℕ → Option ℕ
int_hash_fn x size = do guard (size == int_size); some x

-- `graph` as `use_graph_scheduler` leaves it.
unfoldable pub use_graph_scheduler : Graph
unfolding int_eql_fn int_hash_fn
use_graph_scheduler = record {
  queue = empty;
  handle_to_node = record {
    cells = λ _. [];
    free = [];
    cap = 0;
    node_max = 0;
    equality_fn = int_eql_fn;
    hash_fn = int_hash_fn;
  };
  heap = λ _. none;
  fresh = 1;
}

-- The inner loop of `verify_queue`: none of the `n` cells from `j` on is the node `a`.
unfoldable pub verify_others : Ring ℕ → ℕ → ℕ → ℕ → Option (Unit {0})
verify_others q a zero j = some tt
verify_others q a (suc n) j = do b ← q.elems j; guard (not (a == b)); verify_others q a n (j + 1)

-- The outer loop, with `n` cells to go.
unfoldable pub verify_nodes : Graph → ℕ → ℕ → Option (Unit {0})
unfolding verify_others
verify_nodes g zero i = some tt
verify_nodes g (suc n) i = do
  a ← g.queue.elems i
  node ← g.heap a
  guard node.in_queue
  guard (not (node.h == 0))
  verify_others g.queue a n (i + 1)
  verify_nodes g n (i + 1)

-- `verify_queue` with DEBUG.
unfoldable pub verify_queue : Graph → Option (Unit {0})
unfolding verify_nodes
verify_queue g = do
  guard (leb g.queue.end g.queue.cap)
  guard (leb g.queue.start g.queue.end)
  verify_nodes g (g.queue.end - g.queue.start) g.queue.start

-- Where the table already has a node with a `val`, `n` stays NULL and `n->h` faults.
unfoldable pub graph_register_task : Graph → Handle → Option Graph
graph_register_task g h = do
  guard (not (h == 0))
  (map₁, ref) ← insert g.handle_to_node h int_size
  hash_node ← deref map₁ ref
  elim hash_node.val [
    | some _ ↦ none
    | none ↦ do
      let n = g.fresh
      map₂ ← set_val map₁ ref n
      q ← push_back g.queue n
      let node : Node = record { parent = none; h = h; in_queue = true }
      some (put_node (record g { queue = q; handle_to_node = map₂; fresh = g.fresh + 1 }) n node)
  ]

-- `peek_front`, with the assertions on the node that all functions make.
unfoldable pub front_node : Graph → Option (ℕ × Node)
front_node g = do
  a ← peek_front g.queue
  n ← g.heap a
  guard n.in_queue
  guard (not (n.h == 0))
  some (a, n)

-- `pop_front`, with the same assertions.
unfoldable pub pop_node : Graph → Option (ℕ × Node × Graph)
pop_node g = do
  (a, q) ← pop_front g.queue
  n ← g.heap a
  guard n.in_queue
  guard (not (n.h == 0))
  some (a, n, record g { queue = q })

-- The parent to wake: one that is there and not queued.
unfoldable pub waiting_parent : Graph → Option ℕ → Option (Option (ℕ × Node))
waiting_parent g none = some none
waiting_parent g (some p) = do n ← g.heap p; some (if n.in_queue then none else some (p, n))

unfoldable pub graph_finish_task : Graph → Option (Handle × Handle × Graph)
unfolding front_node pop_node waiting_parent
graph_finish_task g = do
  (a, cur, g₁) ← pop_node g
  let g₂ = put_node g₁ a (record cur { in_queue = false })
  parent ← waiting_parent g₂ cur.parent
  elim parent [
    | some r ↦ do
      q ← push_front g₂.queue r.0
      some (cur.h, r.1.h, put_node (record g₂ { queue = q }) r.0 (record r.1 { in_queue = true }))
    | none ↦ do next ← front_node g₂; some (cur.h, next.1.h, g₂)
  ]

unfoldable pub graph_free_task : Graph → Handle → Option Graph
graph_free_task g h = do
  (hash_node, map') ← remove g.handle_to_node h int_size
  entry ← hash_node
  a ← entry.val
  n ← g.heap a
  guard (not n.in_queue)
  guard (not (n.h == 0))
  some (put_node (record g { handle_to_node = map' }) a (record n { h = 0; in_queue = false }))

unfoldable pub graph_poll_task : TaskPool → Handle → Option State
graph_poll_task p h = do guard (not (h == 0)); t ← get_elem? p.tasks (h - 1); some t.state

unfoldable pub graph_current_task : Graph → Option Handle
unfolding front_node
graph_current_task g = do r ← front_node g; some r.1.h

unfoldable pub graph_next_task : Graph → Option (Handle × Graph)
unfolding pop_node
graph_next_task g = do
  (a, cur, g₁) ← pop_node g
  q ← push_back g₁.queue a
  next ← peek_front q
  n ← g₁.heap next
  guard n.in_queue
  some (n.h, record g₁ { queue = q })

-- `graph_hash_node_deinit` on each node of the table: its `val` is freed.
unfoldable pub free_vals : List (HashNode ℕ ℕ) → (ℕ → Option Node) → ℕ → Option Node
free_vals [] heap = heap
free_vals (n ∷ ns) heap =
    free_vals ns (elim n.val [ none ↦ heap | some a ↦ λ b. if a == b then none else heap b ])

unfoldable pub graph_cleanup : Graph → Graph
unfolding free_vals deinit
graph_cleanup g = record g {
  heap = free_vals (deinit g.handle_to_node).0 g.heap;
  queue = record (g.queue) { elems = if g.queue.cap == 0 then g.queue.elems else λ _. none };
}

unfoldable pub graph_vtable : SchedulerVTable Graph
unfolding graph_register_task graph_finish_task graph_free_task graph_poll_task graph_current_task
    graph_next_task graph_cleanup
graph_vtable = record {
  register_task = graph_register_task;
  finish_task = graph_finish_task;
  free_task = graph_free_task;
  poll_task = graph_poll_task;
  current_task = graph_current_task;
  next_task = graph_next_task;
  cleanup = graph_cleanup;
}

-- `graph_wait_ready` up to the choice of the task to switch to: the caller's handle, that task's,
-- the node waited for and the graph.
unfoldable pub park : Graph → Handle → Option (Handle × Handle × ℕ × Graph)
unfolding pop_node front_node
park g h = do
  (a, cur, g₁) ← pop_node g
  let g₂ = put_node g₁ a (record cur { in_queue = false })
  hash_node ← find g₂.handle_to_node h int_size
  entry ← hash_node
  c ← entry.val
  child ← g₂.heap c
  guard (elim child.parent [ none ↦ true | some _ ↦ false ])
  guard (child.h == h)
  guard (not (child.h == 0))
  g₃ ← if child.in_queue then some (put_node g₂ c (record child { parent = some a })) else do
    q ← push_front g₂.queue c
    some (put_node (record g₂ { queue = q }) c (record child { parent = some a; in_queue = true }))
  next ← front_node g₃
  some (cur.h, next.1.h, c, g₃)

unfoldable pub graph_wait_ready : World Graph → ℕ → Handle → Option (World Graph × Waited)
graph_wait_ready w rsp h = do
  (parent, next, child, g) ← park w.sched h
  w' ← async_switch (record w { sched = g }) rsp parent next
  some (w', suspended child)

-- What follows the switch: the two assertions.
unfoldable pub graph_wait_resume : World Graph → ℕ → Handle → ℕ → Option (World Graph × Waited)
unfolding graph_vtable
graph_wait_resume w rsp parent child = do
  cur ← current_task_handle graph_vtable w
  guard (cur == parent)
  n ← w.sched.heap child
  st ← poll_state graph_vtable w n.h
  guard (is_ready st)
  some (w, returned)

unfoldable pub graph_scheduler : Scheduler Graph
unfolding graph_vtable graph_wait_ready graph_wait_resume
graph_scheduler = record {
  vtable = graph_vtable;
  wait_ready = graph_wait_ready;
  resume = graph_wait_resume;
}
