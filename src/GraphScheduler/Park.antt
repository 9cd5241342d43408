-- ===== src/GraphScheduler/Park.antt =====
-- `graph_wait_ready`: the running task leaves the queue and becomes the parent of the one that it
-- waits for, which is queued in front unless it is queued already.
use c_async_await.Base.{ℕ, ◌≡◌, ◌≢◌, refl, ◌∙◌, true, false, none, some, List, ◌∷◌, arith, mem, inl}
use c_async_await.Ring.Push.{push_front-Holds}
use c_async_await.HashMap.{HashNode}
use c_async_await.HashMap.Map.{find-Represents}
use c_async_await.Pool.{Handle}
use c_async_await.GraphScheduler.{Node, Graph, put_node, park}
use c_async_await.GraphScheduler.Invariant.{
  Table, IsHandle, IsSound, handle_keys, handle_at, parent_at, front_node-IsSound, pop_node-IsSound,
  put_node-IsSound, SameHandles, SameHandles-refl, put_node-SameHandles, dequeued,
}
use c_async_await.GraphScheduler.Finish.{left}

module _ {g : Graph} {f : Table} {a : ℕ} {ps : List ℕ} (s : IsSound g (a ∷ ps) f) (h : Handle)
    (good : IsHandle h) (e : HashNode ℕ ℕ) (c : ℕ) (m : Node) (entry : f h ≡ some e)
    (val : e.val ≡ some c) (at : g.heap c ≡ some m) (name : m.h ≡ h) (free_child : m.parent ≡ none)
    (other : c ≢ a) where
  -- In a sound scheduler, when the node waited for is the table's for its handle, is queued, has no
  -- parent and is not the one in front, and a node is queued behind that, the part of
  -- `graph_wait_ready` before the switch gives the caller's handle and that of the next node, takes
  -- the caller off the queue, makes it the parent, keeps the scheduler sound and keeps the handles
  -- of the nodes.
  pub park-IsSound_queued :
      {b : ℕ} {bs : List ℕ}
      → ps ≡ b ∷ bs
      → mem c ps ≡ true
      → (g' : Graph) × (park g h ≡ some (handle_at g a, handle_at g b, c, g'))
        × IsSound g' ps f
        × SameHandles g g'
        × (g'.heap c ≡ some (record m { parent = some a }))
        × ((b : ℕ) → c ≢ b → parent_at g' b ≡ parent_at g b)
  unfolding park
  park-IsSound_queued {b} {bs} pe queued =
      let (n, q, popped, ata, hold, room, pos, flag) = pop_node-IsSound s in
      let u = left s n q ata hold in
      let found = find-Represents handle_keys u.table h good in
      let m' : Node = record m { parent = some a } in
      let kept : (dequeued g a n q).heap c ≡ some m = ground arith in
      let mflag : m.in_queue ≡ true = u.flags c m kept ∙ queued in
      let v =
        put_node-IsSound c m' u kept refl hold s.distinct.1 (u.flags c m kept) (λ _ _. refl)
          (λ _. rw name good.0) in
      let (k, peek, atk, fk, pk) = front_node-IsSound (rw pe at v) in
      (
        put_node (dequeued g a n q) c m',
        ground (arith, popped, found, peek, kept),
        v,
        put_node-SameHandles g (dequeued g a n q) c m m' q
            (put_node-SameHandles g g a n (record n { in_queue = false }) q (SameHandles-refl g) ata
              refl)
            kept refl,
        ground arith,
        λ x ne. ground arith,
      )

  -- In a sound scheduler, when the node waited for is the table's for its handle, is not queued,
  -- has no parent and is not the one in front, the part of `graph_wait_ready` before the switch
  -- gives the caller's handle and that of this node, puts the node in the caller's place at the
  -- front of the queue with the caller as its parent, keeps the scheduler sound and keeps the
  -- handles of the nodes.
  pub park-IsSound_front :
      mem c ps ≡ false
      → (g' : Graph) × (park g h ≡ some (handle_at g a, h, c, g'))
        × IsSound g' (c ∷ ps) f
        × SameHandles g g'
        × (g'.heap c ≡ some (record m { parent = some a; in_queue = true }))
  unfolding park
  park-IsSound_front idle =
      let (n, q, popped, ata, hold, room, pos, flag) = pop_node-IsSound s in
      let u = left s n q ata hold in
      let found = find-Represents handle_keys u.table h good in
      let m' : Node = record m { parent = some a; in_queue = true } in
      let (q', pushed, hold') = push_front-Holds c hold (inl room) in
      let kept : (dequeued g a n q).heap c ≡ some m = ground arith in
      let mflag : m.in_queue ≡ false = u.flags c m kept ∙ idle in
      let v =
        put_node-IsSound c m' u kept refl hold' (idle, s.distinct.1) (ground arith)
          (λ b ne. ground arith) (λ _. rw name good.0) in
      let (k, peek, atk, fk, pk) = front_node-IsSound v in
      (
        put_node (record (dequeued g a n q) { queue = q' }) c m',
        ground (arith, popped, found, pushed, peek, kept),
        v,
        put_node-SameHandles g (dequeued g a n q) c m m' q'
            (put_node-SameHandles g g a n (record n { in_queue = false }) q (SameHandles-refl g) ata
              refl)
            kept refl,
        ground arith,
      )
