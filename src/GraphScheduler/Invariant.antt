-- ===== src/GraphScheduler/Invariant.antt =====
-- What holds between the calls of the graph scheduler: the queue, the flags of the nodes and the
-- table of nodes agree.
use c_async_await.Base.{
  ℕ, ◌+◌, ◌-◌, ◌%◌, ◌^◌, ◌≤◌, ◌<◌, ◌≡◌, ◌≢◌, refl, sym, ◌∙◌, true, false, Option, none, some, List,
  [], ◌∷◌, ◌==◌, arith, length, mem, IsDistinct, Bool-cases, inl, inr,
}
use c_async_await.Ring.{Ring}
use c_async_await.Ring.Refine.{Holds, pop_front-Holds, peek_front-Holds, empty-Holds}
use c_async_await.HashMap.{HashNode}
use c_async_await.HashMap.Lookup.{Keys, IsServed}
use c_async_await.HashMap.Map.{Represents, bare-Represents}
use c_async_await.Pool.{Handle}
use c_async_await.GraphScheduler.{
  Node, Graph, put_node, int_size, int_eql_fn, int_hash_fn, use_graph_scheduler, front_node,
  pop_node,
}

-- The handles are the keys of the table, all of the size of an `int`.
abbrev pub IsHandle : ℕ → Type 0
IsHandle h = (0 < h) × (h < 2 ^ 31)

abbrev pub int_diff : ℕ → ℕ → ℕ
int_diff x y = (x + 2 ^ 32 - y) % 2 ^ 32

pub int_diff_self : (x : ℕ) → int_diff x x ≡ 0
int_diff_self x = omega arith

pub int_diff_zero : (x y : ℕ) → IsHandle x → IsHandle y → int_diff x y ≡ 0 → x ≡ y
int_diff_zero x y a b e = omega arith

abbrev pub handle_keys : Keys ℕ
handle_keys = record {
  size = int_size;
  Good = IsHandle;
  hash = λ x. x;
  diff = int_diff;
  diff_self = int_diff_self;
  diff_zero = int_diff_zero;
}

abbrev pub Table : Type 0
Table = ℕ → Option (HashNode ℕ ℕ)

-- `ps` are the nodes in the queue, front first; `f` is the table.
pub record IsSound (g : Graph) (ps : List ℕ) (f : Table) : Type 0 where
  pub queue : Holds g.queue ps
  pub table : Represents handle_keys g.handle_to_node f
  pub distinct : IsDistinct ps
  pub flags : (a : ℕ) (n : Node) → g.heap a ≡ some n → n.in_queue ≡ mem a ps
  pub live : (a : ℕ) → mem a ps ≡ true → (n : Node) × (g.heap a ≡ some n) × (0 < n.h)
  pub named :
      (k : ℕ) (e : HashNode ℕ ℕ)
      → IsHandle k
      → f k ≡ some e
      → (a : ℕ) × (n : Node) × (e.val ≡ some a) × (g.heap a ≡ some n) × (n.h ≡ k)
  pub below : (a : ℕ) → g.fresh ≤ a → g.heap a ≡ none
  pub unused : g.handle_to_node.free ≡ []

handle_keys-IsServed : IsServed handle_keys use_graph_scheduler.handle_to_node
unfolding use_graph_scheduler int_eql_fn int_hash_fn
handle_keys-IsServed = record { hashes = λ k g. refl; equals = λ a b ga gb. refl }

-- The scheduler begins with an empty queue and an empty table.
pub use_graph_scheduler-IsSound : IsSound use_graph_scheduler [] (λ _. none)
unfolding use_graph_scheduler
use_graph_scheduler-IsSound = record {
  queue = empty-Holds;
  table = bare-Represents handle_keys _ handle_keys-IsServed (λ i. refl);
  distinct = tt;
  flags = λ a n e. ground arith;
  live = λ a e. ground arith;
  named = λ k e good p. ground arith;
  below = λ a le. refl;
  unused = refl;
}

-- The handle of the node at an address.
abbrev pub handle_at : Graph → ℕ → Handle
handle_at g a = elim (g.heap a) [ none ↦ 0 | some n ↦ n.h ]

module _ {g : Graph} {f : Table} where
  -- The front of the queue passes the assertions of every function that looks at it.
  pub front_node-IsSound :
      {a : ℕ} {ps : List ℕ}
      → IsSound g (a ∷ ps) f
      → (n : Node) × (front_node g ≡ some (a, n))
        × (g.heap a ≡ some n)
        × (n.in_queue ≡ true)
        × (0 < n.h)
  unfolding front_node
  front_node-IsSound {a} {ps} s =
      let (n, e, pos) = s.live a (ground arith) in
      let q = s.flags a n e in
      (n, ground (arith, peek_front-Holds a ps s.queue, q), e, ground (arith, q), pos)

  -- Taking the front off leaves the rest in the queue.
  pub pop_node-IsSound :
      {a : ℕ} {ps : List ℕ}
      → IsSound g (a ∷ ps) f
      → (n : Node) × (q : Ring ℕ) × (pop_node g ≡ some (a, n, record g { queue = q }))
        × (g.heap a ≡ some n)
        × Holds q ps
        × (length ps + 1 < q.cap)
        × (0 < n.h)
        × (n.in_queue ≡ true)
  unfolding pop_node
  pop_node-IsSound {a} {ps} s =
      let (n, e, pos) = s.live a (ground arith) in
      let (q, p, hold, room) = pop_front-Holds a ps s.queue in
      let flag = s.flags a n e in
      (n, q, ground (arith, flag), e, hold, room, pos, ground (arith, flag))

  -- A node is rewritten, but not its handle, and the queue may change at that node alone.
  pub put_node-IsSound :
      {ps ps' : List ℕ} (a : ℕ) (n' : Node) {n : Node} {q : Ring ℕ}
      → IsSound g ps f
      → g.heap a ≡ some n
      → n'.h ≡ n.h
      → Holds q ps'
      → IsDistinct ps'
      → n'.in_queue ≡ mem a ps'
      → ((b : ℕ) → a ≢ b → mem b ps' ≡ mem b ps)
      → (mem a ps' ≡ true → 0 < n.h)
      → IsSound (put_node (record g { queue = q }) a n') ps' f
  put_node-IsSound {ps' = ps'} a n' {n} s at same hold dis flag others pos = record {
    queue = hold;
    table = s.table;
    distinct = dis;
    flags = λ b m e. elim (Bool-cases (a == b)) [
      | inl p ↦ let p' : b ≡ a = ground arith in rw p' (ground (arith, flag))
      | inr p ↦ ground (arith, s.flags b m, others b)
    ];
    live = λ b m. elim (Bool-cases (a == b)) [
      | inl p ↦ let p' : b ≡ a = ground arith in (n', ground arith, rw same (pos (rw p' at m)))
      | inr p ↦ let (l, e, h) = s.live b (sym (others b (ground arith)) ∙ m) in (l, rw p e, h)
    ];
    named = λ k e good found.
        let (b, m, v, e', h) = s.named k e good found in
        elim (Bool-cases (a == b)) [
          | inl p ↦ (b, n', v, ground arith, ground arith)
          | inr p ↦ (b, m, v, rw p e', h)
        ];
    below = λ b le. ground (arith, s.below b);
    unused = s.unused;
  }

-- The nodes of `g'` are those of `g`, with the same handles.
abbrev pub SameHandles : Graph → Graph → Type 0
SameHandles g g' =
    (b : ℕ) (n' : Node) → g'.heap b ≡ some n' → (n : Node) × (g.heap b ≡ some n) × (n.h ≡ n'.h)

pub put_node-SameHandles :
    (g g' : Graph) (a : ℕ) (n n' : Node) (q : Ring ℕ)
    → SameHandles g g'
    → g'.heap a ≡ some n
    → n'.h ≡ n.h
    → SameHandles g (put_node (record g' { queue = q }) a n')
put_node-SameHandles g g' a n n' q same at e b k found = elim (Bool-cases (a == b)) [
  | inl p ↦
      let p' : b ≡ a = ground arith in
      let (m, atm, hm) = same a n at in (m, rw p' atm, hm ∙ ground arith)
  | inr p ↦ same b k (rw p at found)
]

pub SameHandles-refl : (g : Graph) → SameHandles g g
SameHandles-refl g b n e = (n, e, refl)

-- The graph without its front node in the queue.
abbrev pub dequeued : Graph → ℕ → Node → Ring ℕ → Graph
dequeued g a n q = put_node (record g { queue = q }) a (record n { in_queue = false })

-- The node whose coroutine waits for that of the node at an address.
abbrev pub parent_at : Graph → ℕ → Option ℕ
parent_at g a = elim (g.heap a) [ none ↦ none | some n ↦ n.parent ]
