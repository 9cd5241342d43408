-- ===== src/Tests/Clients.antt =====
-- A client that has read the first two bytes of a size, and one that has sent three of its own.
use c_async_await.Base.{◌≡◌, refl, some, true, false, [], ◌∷◌, replicate, arith}
use c_async_await.Echo.{bytes, room, refused}
use c_async_await.Epoll.{Client, reading, writing, keep, client_on_update}
use c_async_await.Epoll.State.{IsReading, Progress}
use c_async_await.Epoll.Updates.{client_on_update-Progress}
use c_async_await.Epoll.Sending.{IsWriting, Sends, client_on_update-Sends}
use c_async_await.Str.{string_init}
use c_async_await.Str.Text.{string_init-IsString}
use c_async_await.Clients.{Server, put_link, server_close_client}
use c_async_await.Base.{none}
use c_async_await.Clients.Chain.{Chain}
use c_async_await.Clients.Close.{server_close_client-Chain, server_close_client_first}
use c_async_await.Tests.Texts.{tight, ab, ab-IsString}

abbrev begun : Client
begun = record {
  mode = reading;
  msg = string_init;
  size = 0 ∷ 0 ∷ 0 ∷ 0 ∷ [];
  read_buffer = replicate 256 0;
  read_ptr = 0;
  read_end = 0;
  size_ptr = 2;
  msg_ptr = 0;
  wire = [];
  bytes_processed = 7;
}

begun-IsReading : IsReading begun []
begun-IsReading = record {
  buffered = record { ordered = omega arith; inside = omega arith; four = refl };
  few = omega arith;
  holds = string_init-IsString;
  counted = refl;
  begins = λ lt. refl;
  within = λ n e e' small. omega arith;
}

client_on_update-Progress_example :
    (c' : Client) × (client_on_update begun
        (true, false)
        (bytes (0 ∷ 2 ∷ b'a' ∷ b'b' ∷ 0 ∷ []))
        refused
      ≡ some (keep c'))
    × Progress begun c' (0 ∷ 0 ∷ 0 ∷ 2 ∷ b'a' ∷ b'b' ∷ 0 ∷ [])
client_on_update-Progress_example =
    client_on_update-Progress begun [] 0 (2 ∷ b'a' ∷ b'b' ∷ 0 ∷ []) refused refl begun-IsReading
      (omega arith) (omega arith) (omega arith)

abbrev answering : Client
answering = record begun {
  mode = writing;
  msg = tight ab;
  size = 0 ∷ 0 ∷ 0 ∷ 2 ∷ [];
  size_ptr = 3;
  wire = 0 ∷ 0 ∷ 0 ∷ [];
}

answering-IsWriting : IsWriting answering ab
answering-IsWriting = record {
  buffered = record { ordered = omega arith; inside = omega arith; four = refl };
  holds = ab-IsString;
  few = omega arith;
  inside = omega arith;
  first = λ lt. refl;
}

client_on_update-Sends_example :
    (c' : Client) × (client_on_update answering (true, true) (bytes []) (room 9) ≡ some (keep c'))
    × Sends answering c' ab
client_on_update-Sends_example =
    client_on_update-Sends answering ab answering-IsWriting 9 (omega arith) true (bytes []) refl

-- The clients at 3, 2 and 1.
abbrev three : Server
three = record {
  heap =
      put_link 3 (record { prev = none; next = some 2; socket = 7 })
        (put_link 2 (record { prev = some 3; next = some 1; socket = 6 })
          (put_link 1 (record { prev = some 2; next = none; socket = 5 }) (λ a. none)));
  clients = some 3;
  free_clients = none;
  fresh = 4;
}

three-Chain : Chain three.heap none three.clients (3 ∷ 2 ∷ 1 ∷ [])
three-Chain = (
  record { prev = none; next = some 2; socket = 7 },
  refl,
  refl,
  refl,
  (
    record { prev = some 3; next = some 1; socket = 6 },
    refl,
    refl,
    refl,
    (record { prev = some 2; next = none; socket = 5 }, refl, refl, refl, refl),
  ),
)

server_close_client-Chain_example :
    (server' : Server) × (server_close_client three 2 ≡ some server')
    × Chain server'.heap none server'.clients (3 ∷ 1 ∷ [])
    × (server'.heap 2 ≡ some (record { prev = none; next = none; socket = 0 }))
server_close_client-Chain_example =
    server_close_client-Chain three [] 3 2 (1 ∷ []) three-Chain (refl, (refl, (refl, tt)))

server_close_client_first_example :
    (server' : Server) × (server_close_client three 3 ≡ some server')
    × Chain server'.heap none server'.clients (3 ∷ [])
server_close_client_first_example =
    server_close_client_first three 3 (2 ∷ 1 ∷ []) three-Chain (refl, (refl, (refl, tt))) refl
