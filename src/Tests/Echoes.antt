-- ===== src/Tests/Echoes.antt =====
-- A client that sends `ab` and `c`, in pieces of three, six and two bytes, and closes.
use c_async_await.Base.{
  ℕ, zero, suc, ◌+◌, ◌≡◌, refl, some, true, false, List, [], ◌∷◌, replicate, arith,
}
use c_async_await.Echo.{
  Received, bytes, Sent, room, refused, returned, Counters, Buffer, ReadResult, Server, fail,
  read_n_bytes, echo_loop,
}
use c_async_await.Echo.Stream.{IsBuffer, Fits, pending}
use c_async_await.Echo.Reading.{Leaves, read_n_bytes-enough, read_n_bytes-eq}
use c_async_await.Echo.Writing.{Willing}
use c_async_await.Echo.Serving.{frames, echo_loop-Served}
use c_async_await.Str.{string_init}

abbrev pieces : List Received
pieces =
    bytes (0 ∷ 0 ∷ 0 ∷ [])
    ∷ bytes (2 ∷ b'a' ∷ b'b' ∷ 0 ∷ 0 ∷ 0 ∷ [])
    ∷ bytes (1 ∷ b'c' ∷ [])
    ∷ bytes []
    ∷ []

pieces-Fits : Fits pieces
pieces-Fits = (omega arith, (omega arith, (omega arith, (omega arith, tt))))

-- The same in one piece.
abbrev whole : List Received
whole = bytes (0 ∷ 0 ∷ 0 ∷ 2 ∷ b'a' ∷ b'b' ∷ 0 ∷ 0 ∷ 0 ∷ 1 ∷ b'c' ∷ []) ∷ bytes [] ∷ []

abbrev empty : Buffer
empty = record { buffer = replicate 256 0; start = 0; end = 0 }

empty-IsBuffer : IsBuffer empty
empty-IsBuffer = record { ordered = omega arith; inside = omega arith }

read_n_bytes-enough_example :
    (r : ReadResult) × (read_n_bytes 4 empty pieces ≡ some r)
    × (r.outcome ≡ returned 4)
    × (r.out ≡ 0 ∷ 0 ∷ 0 ∷ 2 ∷ [])
    × Leaves r (b'a' ∷ b'b' ∷ 0 ∷ 0 ∷ 0 ∷ 1 ∷ b'c' ∷ []) (returned 0)
read_n_bytes-enough_example =
    read_n_bytes-enough 4 empty pieces empty-IsBuffer pieces-Fits (omega arith)

read_n_bytes-eq_example :
    (r₁ r₂ : ReadResult) × (read_n_bytes 6 empty pieces ≡ some r₁)
    × (read_n_bytes 6 empty whole ≡ some r₂)
    × (r₁.outcome ≡ r₂.outcome)
    × (r₁.out ≡ r₂.out)
    × (pending r₁.buf r₁.input ≡ pending r₂.buf r₂.input)
read_n_bytes-eq_example =
    read_n_bytes-eq 6 empty empty pieces whole empty-IsBuffer empty-IsBuffer pieces-Fits
      (omega arith, (omega arith, tt)) refl (omega arith)

abbrev accepts : List Sent
accepts = room 2 ∷ room 5 ∷ refused ∷ []

abbrev rooms : ℕ → List Sent
rooms n = replicate n (room 1)

rooms-Willing : (n : ℕ) → Willing (rooms n)
rooms-Willing zero = tt
rooms-Willing (suc n) = (omega arith, rooms-Willing n)

-- Another client comes before the first message, and the bytes are reset before the second.
abbrev others : ℕ → Counters → Counters
others zero c = record c { current_client_cnt = c.current_client_cnt + 1 }
others (suc zero) c = record c { bytes_processed = 0 }
others (suc (suc k)) c = c

abbrev client : Server
client = record {
  buf = empty;
  input = pieces;
  output = rooms 11;
  wire = [];
  msg = string_init;
  counters = record { current_client_cnt = 3; bytes_processed = 20 };
  meanwhile = others;
  visits = 0;
  is_open = true;
}

abbrev bodies : List (List ℕ)
bodies = (b'a' ∷ b'b' ∷ []) ∷ (b'c' ∷ []) ∷ []

echo_loop-Served_example :
    (server' : Server) × (echo_loop 3 client ≡ some (fail server'))
    × (server'.wire ≡ frames bodies)
    × (server'.counters ≡ record { current_client_cnt = 4; bytes_processed = 5 })
    × (server'.is_open ≡ false)
echo_loop-Served_example =
    echo_loop-Served bodies client pieces-Fits refl refl (omega arith, (omega arith, tt))
      (omega arith) (omega arith, (omega arith, omega arith)) (rooms-Willing 11) (omega arith)
