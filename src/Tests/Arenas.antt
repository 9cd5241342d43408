-- ===== src/Tests/Arenas.antt =====
-- Two requests to a fresh arena.
use c_async_await.Base.{◌≡◌, ◌≤◌, some, List, get_elem?, arith}
use c_async_await.Arena.{Chunk, arena_init, arena_alloc}
use c_async_await.Arena.Alloc.{Gives, arena_alloc-Gives, arena_alloc_overrun}

arena_alloc-Gives_example : Gives (arena_alloc 3 arena_init 25 8) 200
unfolding arena_init
arena_alloc-Gives_example =
    arena_alloc-Gives 2 arena_init 25 8 (omega arith) (omega arith, omega arith, omega arith)

arena_alloc_overrun_example :
    (chunks : List Chunk) × (c : Chunk) × (arena_alloc 1 arena_init 100 1 ≡ some ((1, 0), chunks))
    × (get_elem? chunks 1 ≡ some c)
    × (c.len ≡ 100)
    × (c.bytes ≤ 100)
arena_alloc_overrun_example = arena_alloc_overrun 100 (omega arith) (omega arith)
