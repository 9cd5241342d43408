-- ===== src/GraphScheduler/Free.antt =====
-- `graph_free_task`: the handle leaves the table, and its node is marked as nobody's.
use c_async_await.Base.{
  ℕ, ◌≡◌, ◌≢◌, refl, ◌∙◌, true, false, none, some, List, ◌==◌, arith, mem, Bool-cases, inl, inr,
}
use c_async_await.HashMap.{HashNode}
use c_async_await.HashMap.Map.{update, remove-Represents}
use c_async_await.Pool.{Handle}
use c_async_await.GraphScheduler.{Node, Graph, put_node, graph_free_task}
use c_async_await.GraphScheduler.Invariant.{Table, IsHandle, IsSound, handle_keys}

module _ {g : Graph} {f : Table} {ps : List ℕ} (s : IsSound g ps f) (h : Handle) (good : IsHandle h)
    (e : HashNode ℕ ℕ) (c : ℕ) (m : Node) (entry : f h ≡ some e) (val : e.val ≡ some c)
    (at : g.heap c ≡ some m) (name : m.h ≡ h) where
  -- In a sound scheduler, when the table's node of a handle is not queued, `graph_free_task`
  -- succeeds: the handle is out of the table, the queue does not change, and the scheduler stays
  -- sound.
  pub graph_free_task-IsSound :
      mem c ps ≡ false
      → (g' : Graph) × (graph_free_task g h ≡ some g')
        × IsSound g' ps (update handle_keys f h none)
        × (g'.queue ≡ g.queue)
        × ((b : ℕ) → c ≢ b → g'.heap b ≡ g.heap b)
  unfolding graph_free_task
  graph_free_task-IsSound idle =
      let (map', removed, r, fr, nm, cp) = remove-Represents handle_keys s.table h good in
      let flag = s.flags c m at ∙ idle in
      let m' : Node = record m { h = 0; in_queue = false } in
      (
        put_node (record g { handle_to_node = map' }) c m',
        ground (arith, removed),
        record {
          queue = s.queue;
          table = r;
          distinct = s.distinct;
          flags = λ b n p. ground (arith, s.flags b n);
          live = λ b q. let (n, p, pos) = s.live b q in (n, ground arith, pos);
          named = λ k d gk found. elim (Bool-cases (handle_keys.diff k h == 0)) [
            | inl z ↦ absurd (ground arith)
            | inr z ↦
                let (b, n, v, p, nh) = s.named k d gk (rw z at found) in
                let apart : k ≢ h = ground (arith, handle_keys.diff_self h) in
                (b, n, v, ground arith, nh)
          ];
          below = λ b le. ground (arith, s.below b);
          unused = fr ∙ s.unused;
        },
        refl,
        λ b ne. ground arith,
      )

  -- In a sound scheduler, when the table's node of a handle is queued, `graph_free_task` fails an
  -- assertion.
  pub graph_free_task_queued : mem c ps ≡ true → graph_free_task g h ≡ none
  unfolding graph_free_task
  graph_free_task_queued queued =
      let (map', removed, r, fr, nm, cp) = remove-Represents handle_keys s.table h good in
      let flag = s.flags c m at ∙ queued in ground (arith, removed)
