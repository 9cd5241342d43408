-- ===== src/HashMap/Insert.antt =====
-- What `hash_map_insert` does to the map: a key that has a node keeps it, another key gets one.
use c_async_await.Base.{
  ℕ, ◌+◌, ◌*◌, ◌%◌, ◌^◌, ◌≤◌, ◌<◌, ◌≡◌, refl, ◌∙◌, Option, none, some, List, [], ◌∷◌, leb, int_max,
  arith, Bool-cases, inl, inr,
}
use native.Mathlib.Nat.{mod-lt}
use c_async_await.HashMap.{HashNode, HashMap, NodeRef, write, expand, grow, take_node, insert}
use c_async_await.HashMap.Lookup.{Keys, first, tally, place, tally-zero}
use c_async_await.HashMap.Map.{Represents, update, scan-home, write-Represents, ref}
use c_async_await.HashMap.Expand.{expand-Represents}

module _ {K V : Type 0} where
  -- The `val` that a node taken from the free list still has.
  abbrev pub left_val : List (HashNode K V) → Option V
  left_val [] = none
  left_val (n ∷ ns) = n.val

  take_node_total :
      (h : HashMap K V)
      → h.node_max < int_max
      → (ns : List (HashNode K V)) × (m : ℕ) × (take_node h
          ≡ some (left_val h.free, record h { free = ns; node_max = m }))
        × (m ≤ h.node_max + 1)
        × (h.free ≡ [] → ns ≡ [])
  unfolding take_node
  take_node_total h lt = go h.free refl
    where
      go :
          (l : List (HashNode K V))
          → h.free ≡ l
          → (ns : List (HashNode K V)) × (m : ℕ) × (take_node h
              ≡ some (left_val l, record h { free = ns; node_max = m }))
            × (m ≤ h.node_max + 1)
            × (l ≡ [] → ns ≡ [])
      go [] e = (h.free, h.node_max + 1, rw e (ground arith), omega arith, λ p. e)
      go (n ∷ ns) e = (ns, h.node_max, rw e refl, omega arith, λ p. ground arith)

module _ {K V : Type 0} (keys : Keys K) where
  open keys use {size, Good, hash, diff, diff_self, diff_zero}

  -- The growth test leaves a table with cells that represents the same map.
  pub grow-Represents :
      {h : HashMap K V} {f : K → Option (HashNode K V)}
      → Represents keys h f
      → h.cap * 2 + 10 < 2 ^ 64
      → Represents keys (grow h) f
        × (0 < (grow h).cap)
        × ((grow h).free ≡ h.free)
        × ((grow h).node_max ≡ h.node_max)
        × ((grow h).cap ≤ h.cap * 2 + 10)
  unfolding grow expand
  grow-Represents {h} r fits = elim (Bool-cases (leb (h.cap * 5 % 2 ^ 64) h.node_max)) [
    | inl full ↦
        let (e, c) = expand-Represents keys r fits in
        rw full (e, omega (arith, c), refl, refl, omega (arith, c))
    | inr room ↦ rw room (r, ground arith, refl, refl, omega arith)
  ]

  relabel :
      {h : HashMap K V} {f : K → Option (HashNode K V)} (ns : List (HashNode K V)) (m : ℕ)
      → Represents keys h f
      → Represents keys (record h { free = ns; node_max = m }) f
  relabel ns m r = record {
    served = record { hashes = r.served.hashes; equals = r.served.equals };
    stored = r.stored;
    beyond = r.beyond;
    lives = r.lives;
  }

  module _ {h : HashMap K V} {f : K → Option (HashNode K V)} (r : Represents keys h f) (k : K)
      (g : Good k) (fits : h.cap * 2 + 10 < 2 ^ 64) where
    -- In a table that represents a map, when a key has a node and the table can grow,
    -- `hash_map_insert` returns the pointer to that node and the table, grown if it was full,
    -- represents the same map.
    pub insert_old-Represents :
        (n : HashNode K V)
        → f k ≡ some n
        → (insert h k size ≡ some (grow h, ref keys (grow h) k)) × Represents keys (grow h) f
    unfolding insert
    insert_old-Represents n e =
        let (u, pos, _, _, _) = grow-Represents r fits in
        (ground (arith, u.served.hashes k g, scan-home keys u k g), u)

    abbrev new_node : HashNode K V
    new_node = record { key = k; key_size = size; val = left_val h.free; hash = hash k }

    -- In a table that represents a map, when a key has no node, the table can grow and `node_max`
    -- can be counted up, `hash_map_insert` succeeds: the table represents the map with a new node
    -- for the key, the pointer that is returned is that node's, `cap` and `node_max` grow no
    -- further than one step, and an empty free list stays empty.
    pub insert_new-Represents :
        f k ≡ none
        → h.node_max < int_max
        → (h' : HashMap K V) × (rf : NodeRef) × (insert h k size ≡ some (h', rf))
          × Represents keys h' (update keys f k (some new_node))
          × (rf ≡ ref keys h' k)
          × (h'.cap ≤ h.cap * 2 + 10)
          × (h'.node_max ≤ h.node_max + 1)
          × (h.free ≡ [] → h'.free ≡ [])
    unfolding insert first tally place
    insert_new-Represents e lt =
        let (u, pos, fr, nm, cp) = grow-Represents r fits in
        let (ns, m, took, le, none_left) = take_node_total (grow h) (omega (arith, nm)) in
        let old = (grow h).cells (hash k % (grow h).cap) in
        let l = u.lives k g in
        let w =
          write-Represents keys u k g (new_node ∷ old) (some new_node) (mod-lt (hash k) pos)
            ((refl, refl, g), u.stored _) (λ q gq ne. ground arith)
            (ground (arith, diff_self k, tally-zero keys k old (l.here ∙ e)))
            (ground (arith, diff_self k)) in
        (
          record (grow h) {
            cells = write (grow h).cells (hash k % (grow h).cap) (new_node ∷ old);
            free = ns;
            node_max = m;
          },
          (hash k % (grow h).cap, 0),
          ground (arith, u.served.hashes k g, scan-home keys u k g, took, fr),
          relabel ns m w,
          ground (arith, diff_self k),
          cp,
          omega (arith, nm, le),
          λ p. none_left (fr ∙ p),
        )
