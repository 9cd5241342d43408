-- ===== src/Arena.antt =====
-- src/arena.c: a list of chunks, each twice the size of the one before, that are filled from the
-- front and never freed one by one.
pub mod Alloc
use c_async_await.Base.{
  ℕ, zero, suc, ◌+◌, ◌*◌, ◌==◌, true, false, Option, none, some, List, [], ◌∷◌, ltb, leb,
  if◌then◌else◌, ◌>>=◌, ◌>>◌, guard, int_max,
}

-- An `Arena`; `next` is the rest of the list. `bytes` is what `malloc` was asked for.
pub record Chunk : Type 0 where
  pub len : ℕ
  pub cap : ℕ
  pub bytes : ℕ

-- A pointer into the arena: the chunk's place in the list, and the offset.
abbrev pub Place : Type 0
Place = ℕ × ℕ

unfoldable pub arena_init : List Chunk
arena_init = record { len = 0; cap = 64; bytes = 64 } ∷ []

-- `arena_deinit`: the sizes of the memory that is freed, chunk by chunk.
unfoldable pub arena_deinit : List Chunk → List ℕ
arena_deinit [] = []
arena_deinit (a ∷ next) = elim (a.cap == 0) [
  | true ↦ arena_deinit next
  | false ↦ a.bytes ∷ arena_deinit next
]

-- A chunk goes before those of a result.
abbrev pub after : Chunk → Place × List Chunk → Place × List Chunk
after a r = ((suc r.0.0, r.0.1), a ∷ r.1)

-- The loop of `arena_alloc` from the last chunk on, which has `cap` bytes and no room: new chunks
-- are made until one fits, `fuel` at most. Each is tried with its `len` of 0.
unfoldable pub new_arenas : ℕ → ℕ → ℕ → Option (Place × List Chunk)
new_arenas zero cap size = none
new_arenas (suc fuel) cap size =
    let rest = new_arenas fuel (cap * 2) size in
    guard (leb (cap * 2) int_max)
    >> (if ltb size (cap * 2)
        then some ((0, 0), record { len = size; cap = cap * 2; bytes = cap } ∷ [])
        else (rest >>= λ r. some (after (record { len = 0; cap = cap * 2; bytes = cap }) r)))

-- The loop over the chunks that there are.
unfoldable pub place_in : ℕ → List Chunk → ℕ → Option (Place × List Chunk)
unfolding new_arenas
place_in fuel [] size = none
place_in fuel (a ∷ []) size =
    guard (leb (a.len + size) int_max)
    >> (if ltb (a.len + size) a.cap
        then some ((0, a.len), record a { len = a.len + size } ∷ [])
        else (new_arenas fuel a.cap size >>= λ r. some (after a r)))
place_in fuel (a ∷ b ∷ bs) size =
    let rest = place_in fuel (b ∷ bs) size in
    guard (leb (a.len + size) int_max)
    >> (if ltb (a.len + size) a.cap
        then some ((0, a.len), record a { len = a.len + size } ∷ b ∷ bs)
        else (rest >>= λ r. some (after a r)))

unfoldable pub arena_alloc : ℕ → List Chunk → ℕ → ℕ → Option (Place × List Chunk)
unfolding place_in
arena_alloc fuel chunks elem_cnt elem_size =
    guard (leb (elem_cnt * elem_size) int_max) >> place_in fuel chunks (elem_cnt * elem_size)
