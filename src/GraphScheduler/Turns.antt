-- ===== src/GraphScheduler/Turns.antt =====
-- Whose turn it is: `graph_current_task` and `graph_next_task`.
use c_async_await.Base.{
  ℕ, ◌≡◌, refl, true, some, List, [], ◌∷◌, ◌++◌, arith, mem, inl, mem-append,
  IsDistinct-append_last,
}
use c_async_await.Ring.{Ring, peek_front}
use c_async_await.Ring.Refine.{Holds, peek_front-Holds}
use c_async_await.Ring.Push.{push_back-Holds}
use c_async_await.GraphScheduler.{Graph, graph_current_task, graph_next_task}
use c_async_await.GraphScheduler.Invariant.{
  Table, IsSound, handle_at, front_node-IsSound, pop_node-IsSound,
}

-- The front of a list that is not empty.
abbrev pub front : ℕ → List ℕ → ℕ
front a [] = a
front a (b ∷ bs) = b

module _ {g : Graph} {f : Table} {a : ℕ} {ps : List ℕ} (s : IsSound g (a ∷ ps) f) where
  -- The current task is that of the node in front.
  pub graph_current_task-IsSound : graph_current_task g ≡ some (handle_at g a)
  unfolding graph_current_task
  graph_current_task-IsSound = let (n, e, at, _, _) = front_node-IsSound s in ground (arith)

  rotated :
      (q : Ring ℕ) → Holds q (ps ++ a ∷ []) → IsSound (record g { queue = q }) (ps ++ a ∷ []) f
  rotated q hold = record {
    queue = hold;
    table = s.table;
    distinct = IsDistinct-append_last ps a s.distinct.1 s.distinct.0;
    flags = λ b n e. ground (arith, s.flags b n, mem-append b ps (a ∷ []));
    live = λ b m. s.live b (ground (arith, mem-append b ps (a ∷ [])));
    named = s.named;
    below = s.below;
    unused = s.unused;
  }

  peek_back : (q : Ring ℕ) (qs : List ℕ) → Holds q (qs ++ a ∷ []) → peek_front q ≡ some (front a qs)
  peek_back q [] h = peek_front-Holds a [] h
  peek_back q (b ∷ bs) h = peek_front-Holds b (bs ++ a ∷ []) h

  front_live : (qs : List ℕ) → ps ≡ qs → mem (front a qs) (a ∷ ps) ≡ true
  front_live [] e = ground arith
  front_live (b ∷ bs) e = rw e (ground arith)

  -- In a sound scheduler with a queued node, `graph_next_task` returns the handle of the node
  -- behind the front one, or of the front one if that is alone, moves the front node to the back of
  -- the queue, keeps the scheduler sound and changes no node.
  pub graph_next_task-IsSound :
      (g' : Graph) × (graph_next_task g ≡ some (handle_at g (front a ps), g'))
      × IsSound g' (ps ++ a ∷ []) f
      × (g'.heap ≡ g.heap)
  unfolding graph_next_task
  graph_next_task-IsSound =
      let (n, q, p, at, hold, room, pos, flag) = pop_node-IsSound s in
      let (q', pushed, hold') = push_back-Holds a hold (inl room) in
      let alive = front_live ps refl in
      let (m, here, posm) = s.live (front a ps) alive in
      let flagm = s.flags (front a ps) m here in
      (record g { queue = q' }, ground (arith, peek_back q' ps hold'), rotated q' hold', refl)
