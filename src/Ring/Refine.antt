-- ===== src/Ring/Refine.antt =====
-- When a ring holds a list, front first, and what taking elements off does to that list.
use c_async_await.Base.{
  ℕ, suc, ◌+◌, ◌-◌, ◌≤◌, ◌<◌, ◌≡◌, refl, ◌⊎◌, inl, inr, none, some, List, [], ◌∷◌, ◌++◌, arith, ltb,
  leb, if◌then◌else◌, length, get_elem?, length-append, get_elem?-append_left,
  get_elem?-append_last, int_max,
}
use native.Mathlib.Decide.{dec_lt}
use native.Mathlib.Nat.{mod-eq_of_lt}
use c_async_await.Ring.{Ring, empty, next_index, prev_index, pop_back, pop_front, peek_front}

-- `(x + 1) % cap` at an index of the array.
pub next_index-cases :
    (x cap : ℕ)
    → x < cap
    → ((suc x < cap) × (next_index x cap ≡ suc x)) ⊎ ((suc x ≡ cap) × (next_index x cap ≡ 0))
next_index-cases x cap h = elim (dec_lt (suc x) cap) [
  | yes p ↦ inl (p, ground (arith, mod-eq_of_lt p))
  | no p ↦ inr (omega arith, grind arith)
]

-- The indices of a ring that has an array lie in it; before the first push all are 0.
pub record IsBounded (start end cap : ℕ) : Type 0 where
  pub small : cap ≤ int_max
  pub bare : cap ≡ 0 → (start ≡ 0) × (end ≡ 0)
  pub start_in : 0 < cap → start < cap
  pub end_in : 0 < cap → end < cap

module _ {A : Type 0} where
  abbrev pub count : Ring A → ℕ
  count q = if leb q.start q.end then q.end - q.start else q.cap - q.start + q.end

  -- The cell of the element at distance `k` from the front.
  abbrev pub index : Ring A → ℕ → ℕ
  index q k = if ltb (q.start + k) q.cap then q.start + k else q.start + k - q.cap

  -- The elements stand from `start` on, going round at `cap`, up to `end`.
  pub record Holds (q : Ring A) (xs : List A) : Type 0 where
    pub valid : IsBounded q.start q.end q.cap
    pub size : length xs ≡ count q
    pub reads : (k : ℕ) → k < length xs → q.elems (index q k) ≡ get_elem? xs k

  pub empty-Holds : Holds empty []
  empty-Holds = record { valid = omega arith; size = refl; reads = λ k h. absurd (omega arith) }

  -- When a ring holds a list that is not empty, `queue_pop_front` gives the first element, and the
  -- ring holds the rest with room for one more.
  pub pop_front-Holds :
      {q : Ring A} (x : A) (xs : List A)
      → Holds q (x ∷ xs)
      → (q' : Ring A) × (pop_front q ≡ some (x, q')) × Holds q' xs × (length xs + 1 < q'.cap)
  unfolding pop_front
  pop_front-Holds {q} x xs h =
      let pos : 0 < q.cap = ground arith in
      let nx = next_index-cases q.start q.cap (h.valid.start_in pos) in
      (
        record q { start = next_index q.start q.cap },
        ground (arith, h.reads 0),
        record {
          valid = ground arith;
          size = ground arith;
          reads = λ k lt. ground (arith, h.reads (suc k));
        },
        ground arith,
      )

  -- An empty ring has nothing to take: the assertions of the macros fail.
  pub pop_front-nil : {q : Ring A} → Holds q [] → pop_front q ≡ none
  unfolding pop_front
  pop_front-nil {q} h = ground (arith, h.size, h.valid.start_in, h.valid.end_in)

  pub peek_front-Holds :
      {q : Ring A} (x : A) (xs : List A) → Holds q (x ∷ xs) → peek_front q ≡ some x
  unfolding peek_front
  peek_front-Holds {q} x xs h = ground (arith, h.reads 0, h.size, h.valid.start_in, h.valid.end_in)

  pub peek_front-nil : {q : Ring A} → Holds q [] → peek_front q ≡ none
  unfolding peek_front
  peek_front-nil {q} h = ground (arith, h.size, h.valid.start_in, h.valid.end_in)

  -- When a ring holds a list with a last element, `queue_pop_back` gives that element, and the ring
  -- holds the list without it.
  pub pop_back-Holds :
      {q : Ring A} (x : A) (xs : List A)
      → Holds q (xs ++ x ∷ [])
      → (q' : Ring A) × (pop_back q ≡ some (x, q')) × Holds q' xs
  unfolding pop_back
  pop_back-Holds {q} x xs h =
      let long = length-append xs (x ∷ []) in
      (
        record q { end = prev_index q.end q.cap },
        ground (arith, h.size, h.reads (length xs), long, get_elem?-append_last xs x),
        record {
          valid = ground (arith, long);
          size = ground (arith, long);
          reads = λ k lt. ground (arith, h.reads k, long, get_elem?-append_left xs (x ∷ []) k);
        },
      )
