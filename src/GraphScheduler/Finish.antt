-- ===== src/GraphScheduler/Finish.antt =====
-- `graph_finish_task`: the running task leaves the queue, and its parent, if that waits, takes its
-- place.
use c_async_await.Base.{
  ℕ, ◌<◌, ◌≡◌, ◌≢◌, refl, sym, ◌∙◌, true, false, none, some, List, [], ◌∷◌, arith, mem, inl, inr,
  ◌⊎◌,
}
use c_async_await.Ring.{Ring}
use c_async_await.Ring.Refine.{Holds, peek_front-nil}
use c_async_await.Ring.Push.{push_front-Holds}
use c_async_await.GraphScheduler.{
  Node, Graph, put_node, graph_finish_task, front_node, waiting_parent,
}
use c_async_await.GraphScheduler.Invariant.{
  Table, IsSound, handle_at, parent_at, front_node-IsSound, pop_node-IsSound, put_node-IsSound,
  SameHandles, SameHandles-refl, put_node-SameHandles, dequeued,
}

module _ {g : Graph} {f : Table} {a : ℕ} {ps : List ℕ} (s : IsSound g (a ∷ ps) f) where
  -- The graph when the front node is off the queue and its flag is cleared.
  pub left :
      (n : Node) (q : Ring ℕ) → g.heap a ≡ some n → Holds q ps → IsSound (dequeued g a n q) ps f
  left n q at hold =
      put_node-IsSound a (record n { in_queue = false }) s at refl hold s.distinct.1
        (sym s.distinct.0) (λ b ne. ground arith) (λ m. ground (arith, s.distinct.0))

  -- No waiting parent: the node has none, or it is in the queue again.
  abbrev pub NobodyWaits : Node → Type 0
  NobodyWaits n =
      (n.parent ≡ none)
      ⊎ ((p : ℕ) × (m : Node) × (n.parent ≡ some p)
          × (g.heap p ≡ some m)
          × (m.in_queue ≡ true)
          × (p ≢ a))

  nobody :
      (n : Node) (q : Ring ℕ)
      → NobodyWaits n
      → waiting_parent (dequeued g a n q) n.parent ≡ some none
  unfolding waiting_parent
  nobody n q (inl e) = rw e refl
  nobody n q (inr (p, m, e, at, flag, ne)) = rw e (ground arith)

  -- In a sound scheduler, when the node in front has no parent that waits and another node is
  -- behind it, `graph_finish_task` returns the handles of the two, takes the node off the queue,
  -- keeps the scheduler sound and keeps the handles
  -- and parents of the nodes.
  pub graph_finish_task-IsSound_next :
      {b : ℕ} {bs : List ℕ}
      → ps ≡ b ∷ bs
      → (n : Node) → g.heap a ≡ some n
      → NobodyWaits n
      → (g' : Graph) × (graph_finish_task g ≡ some (n.h, handle_at g b, g'))
        × IsSound g' ps f
        × SameHandles g g'
        × ((b : ℕ) → parent_at g' b ≡ parent_at g b)
  unfolding graph_finish_task
  graph_finish_task-IsSound_next {b} {bs} e n at nw =
      let (n', q, p, at', hold, room, pos, flag) = pop_node-IsSound s in
      let same : n' ≡ n = ground arith in
      let u = left n q at hold in
      let (m, peek, atm, fm, pm) = front_node-IsSound (rw e at u) in
      (
        dequeued g a n q,
        ground (arith, p, same, nobody n q nw, peek),
        u,
        put_node-SameHandles g g a n (record n { in_queue = false }) q (SameHandles-refl g) at refl,
        λ b. ground arith,
      )

  -- In a sound scheduler, when the node in front has a parent with a handle that is not queued,
  -- `graph_finish_task` returns the handles of the node and of the parent, puts the parent in the
  -- node's place at the front of the queue, keeps the scheduler sound and keeps the handles of the
  -- nodes.
  pub graph_finish_task-IsSound_parent :
      (n m : Node) (p : ℕ)
      → g.heap a ≡ some n
      → n.parent ≡ some p
      → g.heap p ≡ some m
      → mem p (a ∷ ps) ≡ false
      → 0 < m.h
      → (g' : Graph) × (graph_finish_task g ≡ some (n.h, m.h, g'))
        × IsSound g' (p ∷ ps) f
        × SameHandles g g'
        × ((b : ℕ) → parent_at g' b ≡ parent_at g b)
  unfolding graph_finish_task waiting_parent
  graph_finish_task-IsSound_parent n m p at e atp out pm =
      let (n', q, popped, at', hold, room, pos, flag) = pop_node-IsSound s in
      let same : n' ≡ n = ground arith in
      let u = left n q at hold in
      let (q', pushed, hold') = push_front-Holds p hold (inl room) in
      let idle : m.in_queue ≡ false = s.flags p m atp ∙ out in
      let kept : (dequeued g a n q).heap p ≡ some m = ground arith in
      (
        put_node (record (dequeued g a n q) { queue = q' }) p (record m { in_queue = true }),
        ground (arith, popped, same, pushed, idle),
        put_node-IsSound p (record m { in_queue = true }) u kept refl hold'
            (ground arith, s.distinct.1) (ground arith) (λ b ne. ground arith) (λ _. pm),
        put_node-SameHandles g (dequeued g a n q) p m (record m { in_queue = true }) q'
            (put_node-SameHandles g g a n (record n { in_queue = false }) q (SameHandles-refl g) at
              refl)
            kept refl,
        λ b. ground arith,
      )

  -- The last task of the queue cannot finish when nobody waits for it.
  pub graph_finish_task_alone :
      ps ≡ [] → (n : Node) → g.heap a ≡ some n → NobodyWaits n → graph_finish_task g ≡ none
  unfolding graph_finish_task front_node
  graph_finish_task_alone e n at nw =
      let (n', q, p, at', hold, room, pos, flag) = pop_node-IsSound s in
      let same : n' ≡ n = ground arith in
      ground (arith, p, same, nobody n q nw, peek_front-nil (rw e at hold))
