-- ===== src/Ring/Push.antt =====
-- What adding elements does to the list that a ring holds; the array grows when it is full.
use c_async_await.Base.{
  zero, suc, ◌+◌, ◌*◌, ◌%◌, ◌≤◌, ◌<◌, ◌≡◌, ◌⊎◌, none, some, List, [], ◌∷◌, ◌++◌, arith, ltb,
  if◌then◌else◌, length, get_elem?, length-append, get_elem?-append_left, get_elem?-append_last,
  int_max,
}
use native.Mathlib.Decide.{dec_lt}
use native.Mathlib.Nat.{mod-eq_of_lt}
use c_async_await.Ring.{
  Ring, write, realloc, memmove, next_index, prev_index, expand, push_back, push_front,
}
use c_async_await.Ring.Refine.{next_index-cases, index, Holds}

module _ {A : Type 0} where
  grown : Ring A → Ring A
  grown q =
      if ltb q.end q.start
      then record q {
        elems = memmove (realloc q.elems q.cap) q.cap q.end;
        end = (q.cap + q.end) % (q.cap * 2 + 10);
        cap = q.cap * 2 + 10;
      }
      else record q { elems = realloc q.elems q.cap; cap = q.cap * 2 + 10 }

  cap-grown : (q : Ring A) → (grown q).cap ≡ q.cap * 2 + 10
  unfolding grown
  cap-grown q = ground arith

  expand-Holds :
      {q : Ring A} {xs : List A}
      → Holds q xs
      → q.cap * 2 + 10 ≤ int_max
      → (expand q ≡ some (grown q)) × Holds (grown q) xs
  unfolding expand grown
  expand-Holds {q} {xs} h fits =
      let e = mod-eq_of_lt {n = q.cap + q.end} {m = q.cap * 2 + 10} in
      (
        ground arith,
        record {
          valid = ground arith;
          size = ground arith;
          reads = λ k lt. ground (arith, h.reads k);
        },
      )

  -- One more element fits the array, or the array can still grow.
  abbrev pub HasRoom : Ring A → List A → Type 0
  HasRoom q xs = (length xs + 1 < q.cap) ⊎ (q.cap * 2 + 10 ≤ int_max)

  -- A free cell in an array: the place of the new element is not that of another.
  put_back : Ring A → A → Ring A
  put_back q x = record q { elems = write q.elems q.end x; end = next_index q.end q.cap }

  put_back-Holds :
      {q : Ring A} {xs : List A} (x : A)
      → Holds q xs
      → length xs + 1 < q.cap
      → Holds (put_back q x) (xs ++ x ∷ [])
  unfolding put_back
  put_back-Holds {q} {xs} x h room =
      let long = length-append xs (x ∷ []) in
      let nx = next_index-cases q.end q.cap (h.valid.end_in (omega arith)) in
      record {
        valid = ground arith;
        size = ground (arith, long);
        reads = λ k lt. elim (dec_lt k (length xs)) [
          | yes p ↦ ground (arith, h.reads k, long, get_elem?-append_left xs (x ∷ []) k)
          | no p ↦
              let e : k ≡ length xs = omega (arith, long) in
              rw e (ground (arith, get_elem?-append_last xs x))
        ];
      }

  put_front : Ring A → A → Ring A
  put_front q x =
      let s = prev_index q.start q.cap in record q { elems = write q.elems s x; start = s }

  put_front-Holds :
      {q : Ring A} {xs : List A} (x : A)
      → Holds q xs
      → length xs + 1 < q.cap
      → Holds (put_front q x) (x ∷ xs)
  unfolding put_front
  put_front-Holds {q} {xs} x h room = record {
    valid = ground arith;
    size = ground arith;
    reads = λ k lt.
        elim k
            as (λ k.
              k < suc (length xs)
              → (put_front q x).elems (index (put_front q x) k) ≡ get_elem? (x ∷ xs) k) [
                | zero ↦ λ l. ground arith
                | suc j ↦ λ l. ground (arith, h.reads j)
              ]
          lt;
  }

  module _ {q : Ring A} {xs : List A} (x : A) (h : Holds q xs) where
    push_back-eq_room : length xs + 1 < q.cap → push_back q x ≡ some (put_back q x)
    unfolding push_back put_back
    push_back-eq_room room =
        ground (arith, next_index-cases q.end q.cap (h.valid.end_in (omega arith)), h.size)

    -- Growing leaves a cell free.
    grown_room : q.cap ≤ length xs + 1 → q.cap * 2 + 10 ≤ int_max → length xs + 1 < (grown q).cap
    grown_room full fits = ground (arith, cap-grown q, h.size, h.valid.start_in, h.valid.end_in)

    push_back-eq_full :
        q.cap ≤ length xs + 1
        → q.cap * 2 + 10 ≤ int_max
        → push_back q x ≡ some (put_back (grown q) x)
    unfolding push_back put_back
    push_back-eq_full full fits =
        let (e, g) = expand-Holds h fits in
        let pos : 0 < (grown q).cap = omega (arith, cap-grown q) in
        let nx = next_index-cases (grown q).end (grown q).cap (g.valid.end_in pos) in
        elim (dec_lt 0 q.cap) [
          | yes p ↦ ground (arith, next_index-cases q.end q.cap (h.valid.end_in p), h.size, e)
          | no p ↦ ground (arith, h.size, g.size, e, cap-grown q, nx)
        ]

    -- When a ring holds a list and has a free cell or can grow, `queue_push_back` succeeds and the
    -- ring holds the list with the element behind it.
    pub push_back-Holds :
        HasRoom q xs → (q' : Ring A) × (push_back q x ≡ some q') × Holds q' (xs ++ x ∷ [])
    push_back-Holds room = elim (dec_lt (length xs + 1) q.cap) [
      | yes p ↦ (put_back q x, push_back-eq_room p, put_back-Holds x h p)
      | no p ↦
          let full : q.cap ≤ length xs + 1 = omega arith in
          let fits : q.cap * 2 + 10 ≤ int_max = omega arith in
          (
            put_back (grown q) x,
            push_back-eq_full full fits,
            put_back-Holds x (expand-Holds h fits).1 (grown_room full fits),
          )
    ]

    push_front-eq_room : length xs + 1 < q.cap → push_front q x ≡ some (put_front q x)
    unfolding push_front put_front
    push_front-eq_room room = ground (arith, h.size, h.valid.start_in, h.valid.end_in)

    push_front-eq_full :
        q.cap ≤ length xs + 1
        → q.cap * 2 + 10 ≤ int_max
        → push_front q x ≡ some (put_front (grown q) x)
    unfolding push_front put_front
    push_front-eq_full full fits =
        let (e, g) = expand-Holds h fits in
        elim (dec_lt 0 q.cap) [
          | yes p ↦ ground (arith, h.size, e, h.valid.start_in, h.valid.end_in)
          | no p ↦ ground (arith, h.size, g.size, e, cap-grown q, g.valid.start_in, g.valid.end_in)
        ]

    -- When a ring holds a list and has a free cell or can grow, `queue_push_front` succeeds and the
    -- ring holds the list with the element before it.
    pub push_front-Holds :
        HasRoom q xs → (q' : Ring A) × (push_front q x ≡ some q') × Holds q' (x ∷ xs)
    push_front-Holds room = elim (dec_lt (length xs + 1) q.cap) [
      | yes p ↦ (put_front q x, push_front-eq_room p, put_front-Holds x h p)
      | no p ↦
          let full : q.cap ≤ length xs + 1 = omega arith in
          let fits : q.cap * 2 + 10 ≤ int_max = omega arith in
          (
            put_front (grown q) x,
            push_front-eq_full full fits,
            put_front-Holds x (expand-Holds h fits).1 (grown_room full fits),
          )
    ]

    -- When the array is full and cannot grow, `cap * 2 + 10` overflows.
    pub push_back_no_room : q.cap ≤ length xs + 1 → int_max < q.cap * 2 + 10 → push_back q x ≡ none
    unfolding push_back expand
    push_back_no_room full big =
        ground (arith, h.size, next_index-cases q.end q.cap (h.valid.end_in (omega arith)))

    pub push_front_no_room :
        q.cap ≤ length xs + 1 → int_max < q.cap * 2 + 10 → push_front q x ≡ none
    unfolding push_front expand
    push_front_no_room full big = ground (arith, h.size, h.valid.start_in, h.valid.end_in)
