-- ===== src/HashMap.antt =====
-- The chained hash table of src/hashmap.c, which the graph scheduler finds its nodes in.
-- A chain is a list of nodes, first node first, in place of the `next` pointers; a pointer to a
-- node of the table is its cell with its place in the chain. `ctx` belongs to the two functions.
pub mod Lookup
pub mod Map
pub mod Expand
pub mod Insert
use c_async_await.Base.{
  ℕ, zero, suc, ◌+◌, ◌*◌, ◌%◌, ◌^◌, Bool, true, false, ◌&&◌, Option, none, some, List, [], ◌∷◌,
  ◌++◌, ltb, leb, ◌==◌, if◌then◌else◌, ◌>>=◌, ◌>>◌, guard, int_max, not, get_elem?, set,
}
use mathlib.Core.Option

-- `val` is `none` for NULL.
pub record HashNode (K V : Type 0) : Type 0 where
  pub key : K
  pub key_size : ℕ
  pub val : Option V
  pub hash : ℕ

-- The function pointers may fail an assertion of their own. `equality_fn` gives the bit pattern
-- of an `int`, 0 for equal keys.
pub record HashMap (K V : Type 0) : Type 0 where
  pub cells : ℕ → List (HashNode K V)
  pub free : List (HashNode K V)
  pub cap : ℕ
  pub node_max : ℕ
  pub equality_fn : K → K → ℕ → Option ℕ
  pub hash_fn : K → ℕ → Option ℕ

abbrev pub NodeRef : Type 0
NodeRef = ℕ × ℕ

module _ {A : Type 0} where
  abbrev pub write : (ℕ → A) → ℕ → A → ℕ → A
  write f i x j = if i == j then x else f j

  abbrev pub erase_at : List A → ℕ → List A
  erase_at [] i = []
  erase_at (x ∷ xs) zero = xs
  erase_at (x ∷ xs) (suc i) = x ∷ erase_at xs i

module _ {K V : Type 0} where
  -- The inner loop of `hash_map_expand`: `kept` is the part of the chain up to `prev`, the list
  -- matched on the part from `n` on. A node whose cell changes is unlinked and put first there.
  unfoldable pub rehash_chain :
      ℕ
      → ℕ
      → List (HashNode K V)
      → List (HashNode K V)
      → (ℕ → List (HashNode K V))
      → ℕ
      → List (HashNode K V)
  rehash_chain new_cap cell kept [] cells = cells
  rehash_chain new_cap cell kept (n ∷ rest) cells =
      let new_cell = n.hash % new_cap in
      let stays = new_cell == cell in
      rehash_chain new_cap cell (if stays then kept ++ n ∷ [] else kept) rest (
        if stays
        then cells
        else write (write cells cell (kept ++ rest)) new_cell (n ∷ cells new_cell))

  -- The outer loop, with `left` cells to go from `cell` on.
  unfoldable pub rehash_cells : ℕ → ℕ → ℕ → (ℕ → List (HashNode K V)) → ℕ → List (HashNode K V)
  unfolding rehash_chain
  rehash_cells new_cap zero cell cells = cells
  rehash_cells new_cap (suc left) cell cells =
      rehash_cells new_cap left (cell + 1) (rehash_chain new_cap cell [] (cells cell) cells)

  -- `realloc` and `memset` leave the new cells empty.
  unfoldable pub expand : HashMap K V → HashMap K V
  unfolding rehash_cells
  expand h =
      let new_cap = (h.cap * 2 + 10) % 2 ^ 64 in
      record h {
        cells = rehash_cells new_cap h.cap 0 (λ i. if ltb i h.cap then h.cells i else []);
        cap = new_cap;
      }

  -- The test of the three search loops.
  unfoldable pub matches : HashMap K V → K → ℕ → ℕ → HashNode K V → Option Bool
  matches h key key_size hash n =
      if n.key_size == key_size && n.hash == hash
      then (do d ← h.equality_fn key n.key key_size; some (d == 0))
      else some false

  -- A search loop: the first node that passes the test, and its place.
  unfoldable pub scan :
      (HashNode K V → Option Bool) → List (HashNode K V) → Option (Option (ℕ × HashNode K V))
  scan test [] = some none
  scan test (n ∷ ns) = do
    hit ← test n
    elim hit [
      | true ↦ some (some (0, n))
      | false ↦ scan test ns >>= λ rest. some (Option.map (λ r. (suc r.0, r.1)) rest)
    ]

  unfoldable pub find : HashMap K V → K → ℕ → Option (Option (HashNode K V))
  unfolding matches scan
  find h key key_size = if h.cap == 0 then some none else do
    hash ← h.hash_fn key key_size
    hit ← scan (matches h key key_size hash) (h.cells (hash % h.cap))
    some (Option.map (λ r. r.1) hit)

  -- The growth test that `hash_map_insert` begins with; `node_max` is converted to `uint64_t`.
  unfoldable pub grow : HashMap K V → HashMap K V
  unfolding expand
  grow h = if leb (h.cap * 5 % 2 ^ 64) h.node_max then expand h else h

  -- A node from the free list, with the `val` that it was left with, or a zeroed one.
  unfoldable pub take_node : HashMap K V → Option (Option V × HashMap K V)
  take_node h = elim h.free [
    | n ∷ rest ↦ some (n.val, record h { free = rest })
    | [] ↦ guard (ltb h.node_max int_max) >> some (none, record h { node_max = h.node_max + 1 })
  ]

  unfoldable pub insert : HashMap K V → K → ℕ → Option (HashMap K V × NodeRef)
  unfolding grow matches scan take_node
  insert h₀ key key_size =
      let h = grow h₀ in
      do
        guard (not (h.cap == 0))
        hash ← h.hash_fn key key_size
        let cell = hash % h.cap
        hit ← scan (matches h key key_size hash) (h.cells cell)
        elim hit [
          | some r ↦ some (h, (cell, r.0))
          | none ↦ do
            (old_val, h') ← take_node h
            let n : HashNode K V = record {
              key = key;
              key_size = key_size;
              val = old_val;
              hash = hash;
            }
            some (record h' { cells = write h'.cells cell (n ∷ h'.cells cell) }, (cell, 0))
        ]

  -- A read through a pointer to a node of the table, and the write `node->val = val`.
  unfoldable pub deref : HashMap K V → NodeRef → Option (HashNode K V)
  deref h r = get_elem? (h.cells r.0) r.1

  unfoldable pub set_val : HashMap K V → NodeRef → V → Option (HashMap K V)
  unfolding deref
  set_val h r v = do
    n ← deref h r
    some
        (record h { cells = write h.cells r.0 (set (h.cells r.0) r.1 (record n { val = some v })) })

  -- The last two lines of `hash_map_remove` are `n->next = h->free; h->free = n->next;`.
  unfoldable pub remove : HashMap K V → K → ℕ → Option (Option (HashNode K V) × HashMap K V)
  unfolding matches scan
  remove h key key_size = if h.cap == 0 then some (none, h) else do
    hash ← h.hash_fn key key_size
    let cell = hash % h.cap
    hit ← scan (matches h key key_size hash) (h.cells cell)
    elim hit [
      | none ↦ some (none, h)
      | some r ↦
          let n_next = h.free in
          some (
            some r.1,
            record h { cells = write h.cells cell (erase_at (h.cells cell) r.0); free = n_next },
          )
    ]

  -- The nodes that `hash_map_deinit` releases: those of the cells, to which the callback is applied
  -- first, and those of the free list.
  unfoldable pub deinit_cells : (ℕ → List (HashNode K V)) → ℕ → ℕ → List (HashNode K V)
  deinit_cells cells zero i = []
  deinit_cells cells (suc left) i = cells i ++ deinit_cells cells left (i + 1)

  unfoldable pub deinit : HashMap K V → List (HashNode K V) × List (HashNode K V)
  unfolding deinit_cells
  deinit h = (deinit_cells h.cells h.cap 0, h.free)
