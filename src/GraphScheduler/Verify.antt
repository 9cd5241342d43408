-- ===== src/GraphScheduler/Verify.antt =====
-- What `verify_queue` accepts.
use c_async_await.Base.{
  ℕ, suc, ◌+◌, ◌<◌, ◌≤◌, ◌≡◌, refl, true, false, none, some, List, [], ◌∷◌, ◌==◌, arith, length,
  get_elem?, mem, IsDistinct,
}
use c_async_await.Ring.{Ring}
use c_async_await.GraphScheduler.{Node, Graph, verify_others, verify_nodes, verify_queue}
use c_async_await.GraphScheduler.Invariant.{Table, IsSound}

verify_others-mem :
    (q : Ring ℕ) (a : ℕ) (xs : List ℕ) (j : ℕ)
    → ((k : ℕ) → k < length xs → q.elems (j + k) ≡ get_elem? xs k)
    → mem a xs ≡ false
    → verify_others q a (length xs) j ≡ some tt
unfolding verify_others
verify_others-mem q a [] j reads out = refl
verify_others-mem q a (x ∷ xs) j reads out =
    let first : q.elems j ≡ some x = ground (arith, reads 0) in
    let rest =
      verify_others-mem q a xs (j + 1) (λ k lt. ground (arith, reads (suc k))) (ground arith) in
    let other : a == x ≡ false = ground arith in rw (first, other, rest) refl

verify_nodes-live :
    (g : Graph) (xs : List ℕ) (i : ℕ)
    → ((k : ℕ) → k < length xs → g.queue.elems (i + k) ≡ get_elem? xs k)
    → IsDistinct xs
    → ((a : ℕ)
        → mem a xs ≡ true
        → (n : Node) × (g.heap a ≡ some n) × (n.in_queue ≡ true) × (0 < n.h))
    → verify_nodes g (length xs) i ≡ some tt
unfolding verify_nodes
verify_nodes-live g [] i reads d live = refl
verify_nodes-live g (x ∷ xs) i reads d live =
    let first : g.queue.elems i ≡ some x = ground (arith, reads 0) in
    let (n, at, flag, pos) = live x (ground arith) in
    let tail : (k : ℕ) → k < length xs → g.queue.elems (i + 1 + k) ≡ get_elem? xs k =
      λ k lt. ground (arith, reads (suc k)) in
    let others = verify_others-mem g.queue x xs (i + 1) tail d.0 in
    let rest = verify_nodes-live g xs (i + 1) tail d.1 (λ a m. live a (ground arith)) in
    let named : n.h == 0 ≡ false = ground arith in rw (first, at, flag, named, others, rest) refl

-- In a sound scheduler, `verify_queue` with DEBUG passes when the queue does not go round the end
-- of its array, and fails an assertion when it does.
pub verify_queue-IsSound :
    {g : Graph} {ps : List ℕ} {f : Table}
    → IsSound g ps f
    → (g.queue.start ≤ g.queue.end → verify_queue g ≡ some tt)
      × (g.queue.end < g.queue.start → verify_queue g ≡ none)
unfolding verify_queue
verify_queue-IsSound {g} {ps} s = (
  λ le.
      let nodes =
        verify_nodes-live g ps g.queue.start
          (λ k lt.
            ground (
              arith,
              s.queue.reads k lt,
              s.queue.size,
              s.queue.valid.end_in,
              s.queue.valid.start_in,
            ))
          s.distinct
          (λ a m. let (n, at, pos) = s.live a m in (n, at, ground (arith, s.flags a n at), pos)) in
      ground (arith, nodes, s.queue.size, s.queue.valid.end_in, s.queue.valid.start_in),
  λ lt. ground arith,
)
