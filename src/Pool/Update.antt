-- ===== src/Pool/Update.antt =====
-- A write to a task that leaves its place in the free list alone keeps the pool well formed.
use c_async_await.Base.{
  ◌-◌, ◌≡◌, refl, some, List, [], ◌∷◌, ◌==◌, if◌then◌else◌, arith, inl, inr, Bool-cases, length-set,
}
use c_async_await.Pool.{is_free, Handle, Task, TaskPool, get_task, put_task}
use c_async_await.Pool.FreeList.{get_task-set, IsChain, IsPool}

module _ (p : TaskPool) (h : Handle) (t t' : Task) (at : get_task p h ≡ some t) where
  pub get_task-put_task :
      (k : Handle) → get_task (put_task p h t') k ≡ (if h == k then some t' else get_task p k)
  get_task-put_task k = get_task-set p (put_task p h t') h k t t' at refl

  module _ (same_free : is_free t'.state ≡ is_free t.state)
      (same_handle : t'.handle ≡ t.handle) where
    put_task-IsChain :
        (k : Handle) (fl : List Handle) → IsChain p k fl → IsChain (put_task p h t') k fl
    put_task-IsChain k [] c = c
    put_task-IsChain k (x ∷ xs) (e, (u, a, fr, rest)) = elim (Bool-cases (h == x)) [
      | inl same ↦
          let here : h ≡ x = ground arith in
          let both : u ≡ t = ground arith in
          (
            e,
            (
              t',
              ground (arith, get_task-put_task x),
              ground arith,
              rw (same_handle, ← both) (put_task-IsChain u.handle xs rest),
            ),
          )
      | inr other ↦
          (e, (u, ground (arith, get_task-put_task x), fr, put_task-IsChain u.handle xs rest))
    ]

    pub put_task-IsPool :
        {fl : List Handle}
        → IsPool p fl
        → t'.stack_base ≡ t.stack_base
        → IsPool (put_task p h t') fl
    put_task-IsPool {fl} s same_base = record {
      chain = put_task-IsChain p.free_task fl s.chain;
      distinct = s.distinct;
      exact = λ k u a. ground (arith, get_task-put_task k, s.exact k u, s.exact h t);
      own = λ k u a m. ground (arith, get_task-put_task k, s.own k u, s.own h t);
      based = λ k u a. ground (arith, get_task-put_task k, s.based k u, s.based h t);
      within = omega (arith, s.within, length-set p.tasks (h - 1) t');
    }
