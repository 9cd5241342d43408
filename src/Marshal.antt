-- ===== src/Marshal.antt =====
-- `pack` and `unpack` of src/io.c, which pass the arguments of a coroutine through a byte buffer.
pub mod RoundTrip
use c_async_await.Base.{
  ℕ, zero, suc, ◌+◌, ◌-◌, ◌*◌, ◌/◌, ◌%◌, ◌^◌, Bool, true, false, Option, none, some, List, [], ◌∷◌,
  ltb, leb, ◌==◌, if◌then◌else◌, ◌>>=◌, ◌>>◌, guard, int_max,
}

-- The memory from the start of `buf` on, a byte at each offset. It goes on behind the buffer.
abbrev pub Memory : Type 0
Memory = ℕ → ℕ

-- `memcpy` of a number of `w` bytes, lowest byte first.
unfoldable pub store : ℕ → ℕ → ℕ → Memory → Memory
store zero p n m = m
store (suc w) p n m = store w (p + 1) (n / 256) (λ q. if p == q then n % 256 else m q)

unfoldable pub load : ℕ → ℕ → Memory → ℕ
load zero p m = 0
load (suc w) p m = m p + 256 * load w (p + 1) m

-- The types that a format letter stands for: `int32_t`, `uint32_t` and `void *`.
pub data Kind : Type 0 where
  int32 uint32 pointer : Kind

-- A variadic argument: its type and its bit pattern.
abbrev pub Arg : Type 0
Arg = Kind × ℕ

abbrev pub kind_of : ℕ → Option Kind
kind_of c =
    if c == b'i'
    then some int32
    else if c == b'u'
    then some uint32
    else if c == b'p'
    then some pointer
    else none

abbrev pub width : Kind → ℕ
width int32 = 4
width uint32 = 4
width pointer = 8

abbrev pub same_kind : Kind → Kind → Bool
same_kind int32 int32 = true
same_kind uint32 uint32 = true
same_kind pointer pointer = true
same_kind _ _ = false

-- `va_arg`: to ask for another type, or for more arguments than there are, is undefined.
unfoldable pub va_arg : Kind → List Arg → Option (ℕ × List Arg)
va_arg k [] = none
va_arg k ((k', v) ∷ args) = do guard (same_kind k k'); some (v, args)

-- The loop of `pack`. The result is the memory with the final `ptr`, or with `none` for the return
-- of -1 at a letter that is no type. The assertion is about `ptr` before the field is written.
unfoldable pub pack_fields : ℕ → ℕ → List ℕ → List Arg → Memory → Option (Memory × Option ℕ)
unfolding va_arg store
pack_fields size ptr [] args m = some (m, some ptr)
pack_fields size ptr (c ∷ fmt) args m = elim (kind_of c) [
  | none ↦ some (m, none)
  | some k ↦ va_arg k args >>= λ r.
      guard (leb ptr size)
      >> (guard (leb (ptr + width k) int_max)
          >> pack_fields size (ptr + width k) fmt r.1 (store (width k) ptr r.0 m))
]

abbrev pub header_size : ℕ
header_size = 8

unfoldable pub pack : ℕ → List ℕ → List Arg → Memory → Option (Memory × Option ℕ)
unfolding pack_fields store
pack size fmt args m = do
  guard (leb header_size size)
  (m', end) ← pack_fields size header_size fmt args m
  elim end [
    | none ↦ some (m', none)
    | some ptr ↦ some (store 4 4 size (store 4 0 ptr m'), some ptr)
  ]

-- The loop of `unpack`: the values read and the final `ptr`, or `none` for the return of -1.
unfoldable pub unpack_fields : ℕ → ℕ → List ℕ → Memory → Option (Option (List Arg × ℕ))
unfolding load
unpack_fields len ptr [] m = some (some ([], ptr))
unpack_fields len ptr (c ∷ fmt) m = guard (ltb ptr len) >> elim (kind_of c) [
  | none ↦ some none
  | some k ↦ unpack_fields len (ptr + width k) fmt m >>= λ r.
      some (elim r [ none ↦ none | some s ↦ some ((k, load (width k) ptr m) ∷ s.0, s.1) ])
]

-- `len` and `size` are `int`s. A negative `len` fails one of the two assertions, whatever the
-- format; `size` is returned as its bit pattern.
unfoldable pub unpack : List ℕ → Memory → Option (Option (List Arg × ℕ))
unfolding unpack_fields load
unpack fmt m = do
  let len = load 4 0 m
  let size = load 4 4 m
  guard (leb len int_max)
  r ← unpack_fields len header_size fmt m
  elim r [ none ↦ some none | some s ↦ guard (s.1 == len) >> some (some (s.0, size)) ]
