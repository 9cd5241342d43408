-- ===== src/HashMap/Expand.antt =====
-- Growing the table in place: `hash_map_expand` moves every node to the cell that its hash selects
-- in the larger table, and the map from keys to nodes stays the same.
use c_async_await.Base.{
  ℕ, zero, suc, ◌+◌, ◌*◌, ◌%◌, ◌^◌, ◌≤◌, ◌<◌, ◌≡◌, refl, sym, ◌∙◌, true, false, Option, none, List,
  [], ◌∷◌, ◌++◌, ltb, ◌==◌, if◌then◌else◌, arith, ◌≢◌, ◌⊎◌, Bool-cases, inl, inr, ap, ==_iff,
}
use mathlib.Core.List.{append_assoc}
use mathlib.Core.Path.{fun_ext}
use native.Mathlib.Decide.{dec_lt}
use native.Mathlib.Nat.{mod-lt}
use c_async_await.HashMap.{HashNode, HashMap, write, rehash_chain, rehash_cells, expand}
use c_async_await.HashMap.Lookup.{
  Keys, at_key, IsStored, AllStored, first, tally, first-none, tally-zero, tally-append,
  first-append, AllStored-append,
}
use c_async_await.HashMap.Map.{Lives, Represents}

-- The cell `i` if no node of the key is left, and `j` otherwise.
abbrev lands : ℕ → ℕ → ℕ → ℕ
lands zero i j = i
lands (suc _) i j = j

lands_same : (n i j : ℕ) → i ≡ j → lands n i j ≡ j
lands_same zero i j e = e
lands_same (suc n) i j e = refl

module _ {K V : Type 0} (keys : Keys K) where
  open keys use {size, Good, hash, diff, diff_self, diff_zero}

  first-middle :
      (k : K) (ms ns : List (HashNode K V)) (n : HashNode K V)
      → at_key keys k n ≡ false
      → first keys k (ms ++ n ∷ ns) ≡ first keys k (ms ++ ns)
  unfolding first
  first-middle k [] ns n e = rw e
  first-middle k (m ∷ ms) ns n e = ground (arith, first-middle k ms ns n)

  AllStored-left : (ms ns : List (HashNode K V)) → AllStored keys (ms ++ ns) → AllStored keys ms
  AllStored-left [] ns a = tt
  AllStored-left (m ∷ ms) ns a = (a.0, AllStored-left ms ns a.1)

  AllStored-right : (ms ns : List (HashNode K V)) → AllStored keys (ms ++ ns) → AllStored keys ns
  AllStored-right [] ns a = a
  AllStored-right (m ∷ ms) ns a = AllStored-right ms ns a.1

  -- The cells after one step of the inner loop that moves `n`.
  abbrev moved :
      ℕ
      → ℕ
      → List (HashNode K V)
      → List (HashNode K V)
      → HashNode K V
      → (ℕ → List (HashNode K V))
      → ℕ
      → List (HashNode K V)
  moved new_cap cell kept rest n cells =
      write (write cells cell (kept ++ rest)) (n.hash % new_cap) (n ∷ cells (n.hash % new_cap))

  module _ (new_cap cell : ℕ) (q : K) (gq : Good q) where
    stays_at :
        (kept rest : List (HashNode K V)) (n : HashNode K V) (cells : ℕ → List (HashNode K V))
        {i : ℕ} {o : Option (HashNode K V)}
        → cells cell ≡ kept ++ n ∷ rest
        → at_key keys q n ≡ true
        → Lives keys q i o cells
        → i ≡ cell
    unfolding tally
    stays_at kept rest n cells {i} e hit l =
        let total : tally keys q (cells cell) ≡ suc (tally keys q kept + tally keys q rest) =
          ground (arith, ap (tally keys q) e, tally-append keys q kept (n ∷ rest)) in
        ground (arith, l.away cell)

    moved-Lives_self :
        (kept rest : List (HashNode K V)) (n : HashNode K V) (cells : ℕ → List (HashNode K V))
        {i : ℕ} {o : Option (HashNode K V)}
        → cells cell ≡ kept ++ n ∷ rest
        → IsStored keys n
        → at_key keys q n ≡ true
        → n.hash % new_cap ≢ cell
        → Lives keys q i o cells
        → Lives keys q (hash q % new_cap) o (moved new_cap cell kept rest n cells)
          × (tally keys q rest ≡ 0)
    unfolding tally first
    moved-Lives_self kept rest n cells {i} {o} e st hit ne l =
        let same : q ≡ n.key = diff_zero q n.key gq st.2 (ground arith) in
        let home : hash q % new_cap ≡ n.hash % new_cap = rw (same, st.1) refl in
        let total : tally keys q (cells cell) ≡ suc (tally keys q kept + tally keys q rest) =
          ground (arith, ap (tally keys q) e, tally-append keys q kept (n ∷ rest)) in
        let split = tally-append keys q kept rest in
        let ic = stays_at kept rest n cells e hit l in
        let once : tally keys q (cells cell) ≤ 1 = ground (arith, l.once) in
        let head = first-append keys q kept (n ∷ rest) (omega arith) in
        (
          rw home (record {
            away = λ j ne'. ground (arith, l.away j);
            once = ground (arith, l.away (n.hash % new_cap));
            here = ground (arith, l.here, ap (first keys q) e);
          }),
          omega arith,
        )

    moved-Lives_other :
        (kept rest : List (HashNode K V)) (n : HashNode K V) (cells : ℕ → List (HashNode K V))
        {i : ℕ} {o : Option (HashNode K V)}
        → cells cell ≡ kept ++ n ∷ rest
        → at_key keys q n ≡ false
        → n.hash % new_cap ≢ cell
        → Lives keys q i o cells
        → Lives keys q i o (moved new_cap cell kept rest n cells)
    unfolding tally first
    moved-Lives_other kept rest n cells {i} e miss ne l =
        let count : tally keys q (cells cell) ≡ tally keys q (kept ++ rest) = ground (
          arith,
          ap (tally keys q) e,
          tally-append keys q kept (n ∷ rest),
          tally-append keys q kept rest,
        ) in
        let head : first keys q (cells cell) ≡ first keys q (kept ++ rest) =
          ap (first keys q) e ∙ first-middle q kept rest n miss in
        record {
          away = λ j ne'. ground (arith, l.away j, l.away (n.hash % new_cap));
          once = ground (arith, l.once);
          here = ground (arith, l.here);
        }

    -- After the inner loop the key's node, if the chain held it, lives where its hash says.
    rehash_chain-Lives :
        (kept rest : List (HashNode K V)) (cells : ℕ → List (HashNode K V)) {i : ℕ}
        {o : Option (HashNode K V)}
        → cells cell ≡ kept ++ rest
        → AllStored keys rest
        → Lives keys q i o cells
        → Lives keys q
            (lands (tally keys q rest) i (hash q % new_cap))
            o
            (rehash_chain new_cap cell kept rest cells)
    unfolding rehash_chain tally
    rehash_chain-Lives kept [] cells e st l = l
    rehash_chain-Lives kept (n ∷ rest) cells {i} {o} e st l =
        elim (Bool-cases (n.hash % new_cap == cell)) [
          | inl stays ↦
              let ih =
                rehash_chain-Lives (kept ++ n ∷ []) rest cells {i = i} (rw append_assoc e) st.1 l in
              elim (Bool-cases (at_key keys q n)) [
                | inl hit ↦
                    let same : q ≡ n.key = diff_zero q n.key gq st.0.2 (ground arith) in
                    let there : i ≡ hash q % new_cap =
                      rw (same, ← st.0.1)
                        (stays_at kept rest n cells e hit l ∙ sym ((==_iff _ cell).0 stays)) in
                    rw (stays, hit) (rw (lands_same _ i _ there) at ih)
                | inr miss ↦ rw (stays, miss) ih
              ]
          | inr moves ↦ elim (Bool-cases (at_key keys q n)) [
            | inl hit ↦
                let (m, zero_rest) =
                  moved-Lives_self kept rest n cells e st.0 hit (ground arith) l in
                let ih =
                  rehash_chain-Lives kept rest (moved new_cap cell kept rest n cells) (ground arith)
                    st.1 m in
                rw (moves, hit) (rw zero_rest at ih)
            | inr miss ↦
                let m = moved-Lives_other kept rest n cells e miss (ground arith) l in
                let ih =
                  rehash_chain-Lives kept rest (moved new_cap cell kept rest n cells) (ground arith)
                    st.1 m in
                rw (moves, miss) ih
          ]
        ]

    -- A key with no node lives in any chain.
    none-Lives :
        {cells : ℕ → List (HashNode K V)} (i j : ℕ) {o : Option (HashNode K V)}
        → Lives keys q i o cells
        → o ≡ none
        → Lives keys q j o cells
    none-Lives {cells} i j l e =
        let zero_at : tally keys q (cells i) ≡ 0 = tally-zero keys q (cells i) (l.here ∙ e) in
        let nowhere : (m : ℕ) → tally keys q (cells m) ≡ 0 = λ m. elim (Bool-cases (m == i)) [
          | inl p ↦ rw ((==_iff m i).0 p) zero_at
          | inr p ↦ l.away m (ground arith)
        ] in
        record {
          away = λ m ne. nowhere m;
          once = omega (arith, nowhere j);
          here = first-none keys q (cells j) (nowhere j) ∙ sym e;
        }

  module _ (new_cap cell : ℕ) where
    rehash_chain-stored :
        (kept rest : List (HashNode K V)) (cells : ℕ → List (HashNode K V))
        → AllStored keys kept
        → AllStored keys rest
        → ((j : ℕ) → AllStored keys (cells j))
        → (j : ℕ) → AllStored keys (rehash_chain new_cap cell kept rest cells j)
    unfolding rehash_chain
    rehash_chain-stored kept [] cells ak ar all j = all j
    rehash_chain-stored kept (n ∷ rest) cells ak ar all j =
        elim (Bool-cases (n.hash % new_cap == cell)) [
          | inl stays ↦ rw stays (
              rehash_chain-stored (kept ++ n ∷ []) rest cells
                (AllStored-append keys kept _ ak (ar.0, tt)) ar.1 all j)
          | inr moves ↦ rw moves (
              rehash_chain-stored kept rest (moved new_cap cell kept rest n cells) ak ar.1
                (λ m. elim (Bool-cases (n.hash % new_cap == m)) [
                  | inl e ↦ rw e (ar.0, all _)
                  | inr e ↦ rw e (elim (Bool-cases (cell == m)) [
                    | inl c ↦ rw c (AllStored-append keys kept rest ak ar.1)
                    | inr c ↦ rw c (all m)
                  ])
                ])
                j)
        ]

    rehash_chain-beyond :
        (kept rest : List (HashNode K V)) (cells : ℕ → List (HashNode K V))
        → cell < new_cap
        → ((j : ℕ) → new_cap ≤ j → cells j ≡ [])
        → (j : ℕ) → new_cap ≤ j
        → rehash_chain new_cap cell kept rest cells j ≡ []
    unfolding rehash_chain
    rehash_chain-beyond kept [] cells lt none_at j le = none_at j le
    rehash_chain-beyond kept (n ∷ rest) cells lt none_at j le =
        elim (Bool-cases (n.hash % new_cap == cell)) [
          | inl stays ↦ rw stays (rehash_chain-beyond (kept ++ n ∷ []) rest cells lt none_at j le)
          | inr moves ↦ rw moves (
              rehash_chain-beyond kept rest (moved new_cap cell kept rest n cells) lt
                (λ m lm.
                  let home = mod-lt n.hash {m = new_cap} (omega arith) in ground (arith, none_at m))
                j le)
        ]

  module _ (new_cap : ℕ) where
    rehash_cells-Lives :
        (left cell : ℕ) (cells : ℕ → List (HashNode K V)) (q : K) (gq : Good q) (i : ℕ)
        {o : Option (HashNode K V)}
        → ((j : ℕ) → AllStored keys (cells j))
        → (i ≡ hash q % new_cap) ⊎ (((cell ≤ i) × (i < cell + left)) ⊎ (o ≡ none))
        → Lives keys q i o cells
        → Lives keys q (hash q % new_cap) o (rehash_cells new_cap left cell cells)
    unfolding rehash_cells
    rehash_cells-Lives zero cell cells q gq i all (inl e) l = rw (← e) l
    rehash_cells-Lives zero cell cells q gq i all (inr (inl b)) l = absurd (omega arith)
    rehash_cells-Lives zero cell cells q gq i all (inr (inr e)) l = none-Lives 0 0 q gq i _ l e
    rehash_cells-Lives (suc left) cell cells q gq i {o} all due l =
        rehash_cells-Lives left (cell + 1) (rehash_chain new_cap cell [] (cells cell) cells) q gq
          (lands (tally keys q (cells cell)) i (hash q % new_cap))
          (rehash_chain-stored new_cap cell [] (cells cell) cells tt (all cell) all)
          (still_due (tally keys q (cells cell)) refl due)
          (rehash_chain-Lives new_cap cell q gq [] (cells cell) cells refl (all cell) l)
      where
        still_due :
            (t : ℕ)
            → tally keys q (cells cell) ≡ t
            → (i ≡ hash q % new_cap) ⊎ (((cell ≤ i) × (i < cell + suc left)) ⊎ (o ≡ none))
            → (lands t i (hash q % new_cap) ≡ hash q % new_cap)
              ⊎ (((cell + 1 ≤ lands t i (hash q % new_cap))
                    × (lands t i (hash q % new_cap) < cell + 1 + left))
                  ⊎ (o ≡ none))
        still_due (suc t) e d = inl refl
        still_due zero e (inl p) = inl p
        still_due zero e (inr (inr p)) = inr (inr p)
        still_due zero e (inr (inl b)) = elim (Bool-cases (i == cell)) [
          | inl p ↦
              inr (inr (sym l.here ∙ rw ((==_iff i cell).0 p) (first-none keys q (cells cell) e)))
          | inr p ↦ inr (inl (ground arith))
        ]

    rehash_cells-stored :
        (left cell : ℕ) (cells : ℕ → List (HashNode K V))
        → ((j : ℕ) → AllStored keys (cells j))
        → (j : ℕ) → AllStored keys (rehash_cells new_cap left cell cells j)
    unfolding rehash_cells
    rehash_cells-stored zero cell cells all = all
    rehash_cells-stored (suc left) cell cells all =
        rehash_cells-stored left (cell + 1) _
          (rehash_chain-stored new_cap cell [] (cells cell) cells tt (all cell) all)

    rehash_cells-beyond :
        (left cell : ℕ) (cells : ℕ → List (HashNode K V))
        → cell + left ≤ new_cap
        → ((j : ℕ) → new_cap ≤ j → cells j ≡ [])
        → (j : ℕ) → new_cap ≤ j
        → rehash_cells new_cap left cell cells j ≡ []
    unfolding rehash_cells
    rehash_cells-beyond zero cell cells le none_at = none_at
    rehash_cells-beyond (suc left) cell cells le none_at =
        rehash_cells-beyond left (cell + 1) _ (omega arith)
          (rehash_chain-beyond new_cap cell [] (cells cell) cells (omega arith) none_at)

  -- When a table represents a map from keys to nodes and the new size does not overflow,
  -- `hash_map_expand` leaves a table of `cap * 2 + 10` cells that represents the same map.
  pub expand-Represents :
      {h : HashMap K V} {f : K → Option (HashNode K V)}
      → Represents keys h f
      → h.cap * 2 + 10 < 2 ^ 64
      → Represents keys (expand h) f × ((expand h).cap ≡ h.cap * 2 + 10)
  unfolding expand tally
  expand-Represents {h} {f} r fits =
      let fit : (h.cap * 2 + 10) % 2 ^ 64 ≡ h.cap * 2 + 10 = omega arith in
      let old : (λ i. if ltb i h.cap then h.cells i else []) ≡ h.cells =
        fun_ext (λ i. ground (arith, r.beyond i)) in
      rw (fit, old)
        (
          record {
            served = record { hashes = r.served.hashes; equals = r.served.equals };
            stored = rehash_cells-stored _ h.cap 0 h.cells r.stored;
            beyond =
                rehash_cells-beyond _ h.cap 0 h.cells (omega arith)
                  (λ j le. r.beyond j (omega arith));
            lives = λ q gq.
                rehash_cells-Lives _ h.cap 0 h.cells q gq (hash q % h.cap) r.stored (start q gq)
                  (r.lives q gq);
          },
          refl,
        )
    where
      start :
          (q : K)
          → Good q
          → (hash q % h.cap ≡ hash q % (h.cap * 2 + 10))
            ⊎ (((0 ≤ hash q % h.cap) × (hash q % h.cap < 0 + h.cap)) ⊎ (f q ≡ none))
      start q gq = elim (dec_lt 0 h.cap) [
        | yes p ↦ inr (inl (omega arith, omega (arith, mod-lt (hash q) p)))
        | no p ↦ inr (
            inr (
              sym (r.lives q gq).here
              ∙ first-none keys q _ (rw (r.beyond (hash q % h.cap) (omega arith)))))
      ]
