-- ===== src/GraphScheduler/Register.antt =====
-- `graph_register_task`: a new task gets a node, and goes to the back of the queue.
use mathlib.Core.Path.{fun_ext, subst}
use c_async_await.Base.{
  ℕ, ◌+◌, ◌*◌, ◌^◌, ◌<◌, ◌≡◌, ◌≢◌, refl, sym, ◌∙◌, true, false, Option, none, some, List, [], ◌∷◌,
  ◌++◌, ◌==◌, arith, mem, Bool-cases, inl, inr, mem-append, IsDistinct-append_last, int_max,
}
use c_async_await.Ring.{Ring}
use c_async_await.Ring.Refine.{Holds}
use c_async_await.Ring.Push.{HasRoom, push_back-Holds}
use c_async_await.HashMap.{HashNode, HashMap}
use c_async_await.HashMap.Map.{Represents, update, deref-Represents, set_val-Represents}
use c_async_await.HashMap.Insert.{left_val, insert_new-Represents}
use c_async_await.Pool.{Handle}
use c_async_await.GraphScheduler.{Node, Graph, put_node, int_size, graph_register_task}
use c_async_await.GraphScheduler.Invariant.{Table, IsSound, IsHandle, handle_keys, int_diff_zero}

-- The table entry of a handle whose node is at `a`.
abbrev pub entry : Handle → ℕ → HashNode ℕ ℕ
entry h a = record { key = h; key_size = int_size; val = some a; hash = h }

abbrev pub bound : Table → Handle → ℕ → Table
bound f h a = update handle_keys f h (some (entry h a))

abbrev pub new_task : Handle → Node
new_task h = record { parent = none; h = h; in_queue = true }

bound_twice :
    (f : Table) (h : Handle) (o p : Option (HashNode ℕ ℕ))
    → update handle_keys (update handle_keys f h o) h p ≡ update handle_keys f h p
bound_twice f h o p = fun_ext λ k. ground arith

module _ {g : Graph} {ps : List ℕ} {f : Table} (s : IsSound g ps f) (h : Handle)
    (good : IsHandle h) where
  registered :
      (q : Ring ℕ) (map' : HashMap ℕ ℕ)
      → Holds q (ps ++ g.fresh ∷ [])
      → Represents handle_keys map' (bound f h g.fresh)
      → map'.free ≡ []
      → IsSound
          (put_node
            (record g { queue = q; handle_to_node = map'; fresh = g.fresh + 1 })
            g.fresh
            (new_task h))
          (ps ++ g.fresh ∷ [])
          (bound f h g.fresh)
  registered q map' hold rep fr =
      let absent : mem g.fresh ps ≡ false = elim (Bool-cases (mem g.fresh ps)) [
        | inl e ↦ let (n, at, _) = s.live g.fresh e in ground (arith, s.below g.fresh)
        | inr e ↦ e
      ] in
      record {
        queue = hold;
        table = rep;
        distinct = IsDistinct-append_last ps g.fresh s.distinct absent;
        flags = λ b n e. ground (arith, s.flags b n, mem-append b ps (g.fresh ∷ []));
        live = λ b m. elim (Bool-cases (g.fresh == b)) [
          | inl p ↦ (new_task h, ground arith, good.0)
          | inr p ↦
              let (n, at, pos) = s.live b (ground (arith, mem-append b ps (g.fresh ∷ []))) in
              (n, rw p at, pos)
        ];
        named = λ k e gk found. elim (Bool-cases (handle_keys.diff k h == 0)) [
          | inl z ↦ (
            g.fresh,
            new_task h,
            ground arith,
            ground arith,
            sym (int_diff_zero k h gk good (ground arith)),
          )
          | inr z ↦
              let (b, n, v, at, nh) = s.named k e gk (rw z at found) in
              (b, n, v, ground (arith, s.below b), nh)
        ];
        below = λ b le. ground (arith, s.below b);
        unused = fr;
      }

  -- In a sound scheduler, when a handle has no table entry and the table and the queue have room,
  -- `graph_register_task` succeeds: a new node with that handle and no parent is the last of the
  -- queue and the table's entry for the handle, the other nodes do not change, and the scheduler
  -- stays sound.
  pub graph_register_task-IsSound :
      f h ≡ none
      → g.handle_to_node.cap * 2 + 10 < 2 ^ 64
      → g.handle_to_node.node_max < int_max
      → HasRoom g.queue ps
      → (g' : Graph) × (graph_register_task g h ≡ some g')
        × IsSound g' (ps ++ g.fresh ∷ []) (bound f h g.fresh)
        × (g'.heap g.fresh ≡ some (new_task h))
        × ((b : ℕ) → g.fresh ≢ b → g'.heap b ≡ g.heap b)
  unfolding graph_register_task
  graph_register_task-IsSound fresh_key fits lt room =
      let (m₁, rf, ins, r₁, at, _, _, fr₁) =
        insert_new-Represents handle_keys s.table h good fits fresh_key lt in
      let empty_val : left_val g.handle_to_node.free ≡ none = rw s.unused refl in
      let n₁ : HashNode ℕ ℕ = record {
        key = h;
        key_size = int_size;
        val = left_val g.handle_to_node.free;
        hash = h;
      } in
      let hit : update handle_keys f h (some n₁) h ≡ some n₁ =
        ground (arith, handle_keys.diff_self h) in
      let read = deref-Represents handle_keys r₁ h good n₁ hit in
      let (m₂, put, r₂, fr₂) = set_val-Represents handle_keys r₁ h good n₁ g.fresh hit in
      let (q, pushed, hold) = push_back-Holds g.fresh s.queue room in
      (
        put_node (record g { queue = q; handle_to_node = m₂; fresh = g.fresh + 1 }) g.fresh
            (new_task h),
        ground (arith, ins, at, read, empty_val, put, pushed),
        registered q m₂ hold
            (subst (Represents handle_keys m₂) (bound_twice f h (some n₁) (some (entry h g.fresh)))
              r₂)
            (fr₂ ∙ fr₁ s.unused),
        ground arith,
        λ b ne. ground arith,
      )
