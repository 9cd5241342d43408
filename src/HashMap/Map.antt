-- ===== src/HashMap/Map.antt =====
-- The table as a finite map from keys to nodes: what `hash_map_find`, `hash_map_remove` and a write
-- of `val` do to that map.
use c_async_await.Base.{
  ℕ, ◌%◌, ◌≤◌, ◌<◌, ◌≡◌, refl, sym, ◌∙◌, Option, none, some, List, [], ◌==◌, if◌then◌else◌, set,
  arith, ◌≢◌, Bool-cases, Option-cases, inl, inr,
}
use mathlib.Core.Option
use native.Mathlib.Decide.{dec_lt}
use c_async_await.HashMap.{
  HashNode, HashMap, NodeRef, write, erase_at, matches, scan, find, remove, deref, set_val,
}
use c_async_await.HashMap.Lookup.{
  Keys, IsServed, AllStored, first, tally, place, scan-first, first-none, first-at_key,
  first-IsStored, first-erase_at, first-set, tally-erase_at, first-set_self, AllStored-erase_at,
  AllStored-set,
}

module _ {K V : Type 0} (keys : Keys K) where
  open keys use {size, Good, hash, diff, diff_self, diff_zero}

  -- The key's one node, or none, is in the chain `i`.
  pub record Lives (q : K) (i : ℕ) (o : Option (HashNode K V)) (cells : ℕ → List (HashNode K V))
      : Type 0 where
    pub away : (j : ℕ) → j ≢ i → tally keys q (cells j) ≡ 0
    pub once : tally keys q (cells i) ≤ 1
    pub here : first keys q (cells i) ≡ o

  -- `f` gives the node of each key; each node is in the chain that its hash selects.
  pub record Represents (h : HashMap K V) (f : K → Option (HashNode K V)) : Type 0 where
    pub served : IsServed keys h
    pub stored : (i : ℕ) → AllStored keys (h.cells i)
    pub beyond : (i : ℕ) → h.cap ≤ i → h.cells i ≡ []
    pub lives : (q : K) → Good q → Lives q (hash q % h.cap) (f q) h.cells

  -- The pointer to the node of a key.
  abbrev pub ref : HashMap K V → K → NodeRef
  ref h k = (hash k % h.cap, place keys k (h.cells (hash k % h.cap)))

  abbrev pub update :
      (K → Option (HashNode K V)) → K → Option (HashNode K V) → K → Option (HashNode K V)
  update f k o q = if diff q k == 0 then o else f q

  module _ {h : HashMap K V} {f : K → Option (HashNode K V)} (r : Represents h f) (k : K)
      (g : Good k) where
    -- A search in the home chain of a key finds the node that the map gives.
    pub scan-home :
        scan (matches h k size (hash k)) (h.cells (hash k % h.cap))
        ≡ some (Option.map (λ n. (place keys k (h.cells (hash k % h.cap)), n)) (f k))
    scan-home = rw (scan-first keys r.served k _ g (r.stored _), (r.lives k g).here)

    -- On a table that represents a map, `hash_map_find` of a key returns the node that the map has
    -- for it, or NULL.
    pub find-Represents : find h k size ≡ some (f k)
    unfolding find first
    find-Represents = elim (Bool-cases (h.cap == 0)) [
      | inl bare ↦ ground (arith, r.beyond (hash k % h.cap), (r.lives k g).here)
      | inr ready ↦ rw (ready, r.served.hashes k g, scan-home) (ground arith)
    ]

    -- Only the home chain is written, by one that differs at the key alone.
    pub write-Represents :
        (c : List (HashNode K V)) (o : Option (HashNode K V))
        → hash k % h.cap < h.cap
        → AllStored keys c
        → ((q : K)
            → Good q
            → diff q k ≢ 0
            → (first keys q c ≡ first keys q (h.cells (hash k % h.cap)))
              × (tally keys q c ≡ tally keys q (h.cells (hash k % h.cap))))
        → tally keys k c ≤ 1
        → first keys k c ≡ o
        → Represents (record h { cells = write h.cells (hash k % h.cap) c }) (update f k o)
    write-Represents c o home stored same once here = record {
      served = record { hashes = r.served.hashes; equals = r.served.equals };
      stored = λ i. elim (Bool-cases (hash k % h.cap == i)) [
        | inl e ↦ rw e stored
        | inr e ↦ rw e (r.stored i)
      ];
      beyond = λ i le. ground (arith, r.beyond i);
      lives = λ q gq.
          let l = r.lives q gq in
          elim (Bool-cases (diff q k == 0)) [
            | inl e ↦
                let p : q ≡ k = diff_zero q k gq g (ground arith) in
                rw (e, p)
                  (record {
                    away = λ j ne. ground (arith, (r.lives k g).away j);
                    once = ground arith;
                    here = ground arith;
                  })
            | inr e ↦
                let s = same q gq (ground arith) in
                rw e (record {
                  away = λ j ne. ground (arith, l.away j, l.away (hash k % h.cap));
                  once = ground (arith, l.once);
                  here = ground (arith, l.here);
                })
          ];
    }

    -- A key with a node is in a table with cells.
    pub home-lt : f k ≢ none → hash k % h.cap < h.cap
    unfolding first
    home-lt found = elim (dec_lt (hash k % h.cap) h.cap) [
      | yes p ↦ p
      | no p ↦
          absurd (found (sym (r.lives k g).here ∙ rw (r.beyond (hash k % h.cap) (omega arith))))
    ]

    same_map : f k ≡ none → (q : K) → Good q → update f k none q ≡ f q
    same_map e q gq = elim (Bool-cases (diff q k == 0)) [
      | inl z ↦ let p : q ≡ k = diff_zero q k gq g (ground arith) in rw (z, p, e)
      | inr z ↦ rw z
    ]

    -- On a table that represents a map, `hash_map_remove` of a key returns the node that the map
    -- has for it, or NULL, and leaves a table that represents the map without the key; the free
    -- list, `node_max` and `cap` do not change.
    pub remove-Represents :
        (h' : HashMap K V) × (remove h k size ≡ some (f k, h'))
        × Represents h' (update f k none)
        × (h'.free ≡ h.free)
        × (h'.node_max ≡ h.node_max)
        × (h'.cap ≡ h.cap)
    unfolding remove
    remove-Represents = elim (Option-cases (f k)) [
      | inl e ↦ (
        h,
        ground (arith, r.served.hashes k g, scan-home),
        record {
          served = r.served;
          stored = r.stored;
          beyond = r.beyond;
          lives = λ q gq. rw (same_map e q gq) (r.lives q gq);
        },
        refl,
        refl,
        refl,
      )
      | inr (n, e) ↦
          let l = r.lives k g in
          let ns = h.cells (hash k % h.cap) in
          let found : first keys k ns ≢ none = ground (arith, l.here) in
          let gone = tally-erase_at keys k ns found in
          let home = home-lt (ground arith) in
          (
            record h { cells = write h.cells (hash k % h.cap) (erase_at ns (place keys k ns)) },
            ground (arith, r.served.hashes k g, scan-home),
            write-Represents _ none home (AllStored-erase_at keys ns _ (r.stored _))
                (λ q gq ne. first-erase_at keys q k gq g ns (r.stored _) found ne)
                (omega (arith, l.once)) (first-none keys k _ (omega (arith, l.once))),
            refl,
            refl,
            refl,
          )
    ]

    -- A node read through its pointer, and the map after `node->val = v`.
    pub deref-Represents : (n : HashNode K V) → f k ≡ some n → deref h (ref h k) ≡ some n
    unfolding deref
    deref-Represents n e =
        (first-at_key keys k (h.cells (hash k % h.cap)) n ((r.lives k g).here ∙ e)).0

    -- In a table that represents a map, a write of `val` through the pointer to the node of a key
    -- succeeds: the table represents the map with that node changed, and the free list does not
    -- change.
    pub set_val-Represents :
        (n : HashNode K V) (v : V)
        → f k ≡ some n
        → (h' : HashMap K V) × (set_val h (ref h k) v ≡ some h')
          × Represents h' (update f k (some (record n { val = some v })))
          × (h'.free ≡ h.free)
    unfolding set_val
    set_val-Represents n v e =
        let l = r.lives k g in
        let ns = h.cells (hash k % h.cap) in
        let m : HashNode K V = record n { val = some v } in
        let hit = first-at_key keys k ns n (l.here ∙ e) in
        let st = first-IsStored keys k ns n (r.stored _) (l.here ∙ e) in
        let same : n.key ≡ k = sym (diff_zero k n.key g st.2 (ground arith)) in
        let found : first keys k ns ≢ none = ground (arith, l.here) in
        let now = first-set_self keys k ns m found same in
        (
          record h { cells = write h.cells (hash k % h.cap) (set ns (place keys k ns) m) },
          rw (deref-Represents n e),
          write-Represents _ (some m) (home-lt (ground arith))
              (AllStored-set keys ns _ m (r.stored _) st)
              (λ q gq ne. first-set keys q k gq g ns m (r.stored _) found ne same)
              (omega (arith, l.once)) now.0,
          refl,
        )

  -- A table with no node in any cell represents the map that is nowhere defined.
  pub bare-Represents :
      (h : HashMap K V) → IsServed keys h → ((i : ℕ) → h.cells i ≡ []) → Represents h (λ _. none)
  unfolding first tally
  bare-Represents h served bare = record {
    served = served;
    stored = λ i. rw (bare i) tt;
    beyond = λ i _. bare i;
    lives = λ q _. record {
      away = λ j _. rw (bare j) refl;
      once = rw (bare (hash q % h.cap)) (omega arith);
      here = rw (bare (hash q % h.cap)) refl;
    };
  }
