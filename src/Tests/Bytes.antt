-- ===== src/Tests/Bytes.antt =====
-- The arguments of `async_recv`, through its buffer of 256 bytes.
use c_async_await.Base.{ℕ, ◌≡◌, ◌≤◌, refl, some, List, [], ◌∷◌, arith}
use c_async_await.Marshal.{Memory, Arg, int32, pointer, pack, unpack}
use c_async_await.Marshal.RoundTrip.{unpack-pack}

abbrev blank : Memory
blank q = 0

-- `fd`, `buf`, `n` and `flags`
abbrev recv_args : List Arg
recv_args = (int32, 5) ∷ (pointer, 140000000000000) ∷ (int32, 100) ∷ (int32, 0) ∷ []

abbrev recv_format : List ℕ
recv_format = b'i' ∷ b'p' ∷ b'i' ∷ b'i' ∷ []

unpack-pack_example :
    (m' : Memory) × (pack 256 recv_format recv_args blank ≡ some (m', some 28))
    × (unpack recv_format m' ≡ some (some (recv_args, 256)))
    × ((q : ℕ) → 28 ≤ q → m' q ≡ 0)
unpack-pack_example =
    unpack-pack 256 recv_format recv_args blank (refl, (refl, (refl, (refl, tt))))
      (omega arith, (omega arith, (omega arith, (omega arith, tt)))) (omega arith) (omega arith)
