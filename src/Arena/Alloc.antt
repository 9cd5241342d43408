-- ===== src/Arena/Alloc.antt =====
-- What `arena_alloc` gives out.
use c_async_await.Base.{
  ℕ, zero, suc, ◌+◌, ◌*◌, ◌≡◌, ◌≤◌, ◌<◌, Option, some, List, [], ◌∷◌, get_elem?, arith, int_max,
  inl, inr, Bool-cases, ltb, refl, le→leb,
}
use c_async_await.Arena.{Chunk, Place, arena_init, new_arenas, place_in, arena_alloc}

-- `cap` doubled `n` times.
abbrev pub doubled : ℕ → ℕ → ℕ
doubled zero cap = cap
doubled (suc n) cap = doubled n (cap * 2)

doubled-le : (n cap : ℕ) → cap ≤ doubled n cap
doubled-le zero cap = omega arith
doubled-le (suc n) cap = omega (arith, doubled-le n (cap * 2))

-- A place with `size` cells up to the `len` of its chunk, which is no more than `cap`.
abbrev pub Gives : Option (Place × List Chunk) → ℕ → Type 0
Gives o size =
    (i off : ℕ) × (chunks : List Chunk) × (c : Chunk) × (o ≡ some ((i, off), chunks))
    × (get_elem? chunks i ≡ some c)
    × (off + size ≡ c.len)
    × (c.len < c.cap)

new_arenas-Gives :
    (fuel cap size : ℕ)
    → size < doubled (suc fuel) cap
    → doubled (suc fuel) cap ≤ int_max
    → Gives (new_arenas (suc fuel) cap size) size
unfolding new_arenas
new_arenas-Gives zero cap size small fits = (
  0,
  0,
  record { len = size; cap = cap * 2; bytes = cap } ∷ [],
  record { len = size; cap = cap * 2; bytes = cap },
  ground arith,
  refl,
  omega arith,
  small,
)
new_arenas-Gives (suc n) cap size small fits =
    let le = doubled-le (suc n) (cap * 2) in
    elim (Bool-cases (ltb size (cap * 2))) [
      | inl e ↦ (
        0,
        0,
        record { len = size; cap = cap * 2; bytes = cap } ∷ [],
        record { len = size; cap = cap * 2; bytes = cap },
        ground arith,
        refl,
        omega arith,
        ground arith,
      )
      | inr e ↦
          let (i, off, chunks, c, r, at, eq, lt) = new_arenas-Gives n (cap * 2) size small fits in
          (
            suc i,
            off,
            record { len = 0; cap = cap * 2; bytes = cap } ∷ chunks,
            c,
            ground (arith, r),
            at,
            eq,
            lt,
          )
    ]

-- The last chunk, doubled at most `suc fuel` times, is large enough, and nothing overflows.
abbrev pub HasSpace : ℕ → List Chunk → ℕ → Type 0
HasSpace fuel [] size = ⊥
HasSpace fuel (a ∷ []) size =
    (a.len + size ≤ int_max)
    × (size < doubled (suc fuel) a.cap)
    × (doubled (suc fuel) a.cap ≤ int_max)
HasSpace fuel (a ∷ b ∷ bs) size = (a.len + size ≤ int_max) × HasSpace fuel (b ∷ bs) size

place_in-Gives :
    (fuel : ℕ) (chunks : List Chunk) (size : ℕ)
    → HasSpace fuel chunks size
    → Gives (place_in (suc fuel) chunks size) size
unfolding place_in
place_in-Gives fuel [] size h = absurd h
place_in-Gives fuel (a ∷ []) size h = elim (Bool-cases (ltb (a.len + size) a.cap)) [
  | inl e ↦ (
    0,
    a.len,
    record a { len = a.len + size } ∷ [],
    record a { len = a.len + size },
    ground arith,
    refl,
    refl,
    ground arith,
  )
  | inr e ↦
      let (i, off, chunks, c, r, at, eq, lt) = new_arenas-Gives fuel a.cap size h.1 h.2 in
      (suc i, off, a ∷ chunks, c, ground (arith, r), at, eq, lt)
]
place_in-Gives fuel (a ∷ b ∷ bs) size h = elim (Bool-cases (ltb (a.len + size) a.cap)) [
  | inl e ↦ (
    0,
    a.len,
    record a { len = a.len + size } ∷ b ∷ bs,
    record a { len = a.len + size },
    ground arith,
    refl,
    refl,
    ground arith,
  )
  | inr e ↦
      let (i, off, chunks, c, r, at, eq, lt) = place_in-Gives fuel (b ∷ bs) size h.1 in
      (suc i, off, a ∷ chunks, c, ground (arith, r), at, eq, lt)
]

-- When the request and the lengths fit an `int` and the last chunk's size, doubled as often as the
-- fuel says, exceeds the request without overflow, `arena_alloc` returns with one more round of
-- fuel: the place that it gives is in a chunk of the list and the bytes from it to that chunk's
-- length are those asked for, within the chunk's `cap`.
pub arena_alloc-Gives :
    (fuel : ℕ) (chunks : List Chunk) (elem_cnt elem_size : ℕ)
    → elem_cnt * elem_size ≤ int_max
    → HasSpace fuel chunks (elem_cnt * elem_size)
    → Gives (arena_alloc (suc fuel) chunks elem_cnt elem_size) (elem_cnt * elem_size)
unfolding arena_alloc
arena_alloc-Gives fuel chunks elem_cnt elem_size fits h =
    rw (le→leb (elem_cnt * elem_size) int_max fits)
      (place_in-Gives fuel chunks (elem_cnt * elem_size) h)

-- For a fresh arena and a request of 64 to 127 bytes, `arena_alloc` gives the start of a second
-- chunk, whose length is then the request, but `malloc` was asked for no more bytes for it than the
-- request has.
pub arena_alloc_overrun :
    (size : ℕ)
    → 64 ≤ size
    → size < 128
    → (chunks : List Chunk) × (c : Chunk) × (arena_alloc 1 arena_init size 1
        ≡ some ((1, 0), chunks))
      × (get_elem? chunks 1 ≡ some c)
      × (c.len ≡ size)
      × (c.bytes ≤ size)
unfolding arena_alloc place_in new_arenas arena_init
arena_alloc_overrun size lo hi = (
  record { len = 0; cap = 64; bytes = 64 } ∷ record { len = size; cap = 128; bytes = 64 } ∷ [],
  record { len = size; cap = 128; bytes = 64 },
  ground arith,
  refl,
  refl,
  lo,
)
