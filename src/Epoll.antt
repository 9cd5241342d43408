-- ===== src/Epoll.antt =====
-- A client of the echo server of examples/echo_epoll.c: `client_on_update`, the step that its state
-- machine takes when the socket has something to read or room to write. What `recv` brings and how
-- much `send` takes are parameters, as in the other server.
pub mod Bytes
pub mod State
pub mod Parts
pub mod Updates
pub mod Sending
use c_async_await.Base.{
  ℕ, zero, suc, ◌+◌, ◌-◌, Bool, true, false, Option, none, some, List, [], ◌∷◌, ◌++◌, ltb, leb,
  ◌==◌, ◌&&◌, ◌>>=◌, ◌>>◌, guard, int_max, length, get_elem?, set, take, drop,
}
use c_async_await.Echo.{Received, bytes, broken, Sent, room, refused, buf_size, ntohl, text_of}
use c_async_await.Str.{String, string_append, string_clear}

pub data ClientMode : Type 0 where
  reading : ClientMode
  writing : ClientMode

-- `wire` is what was sent through the socket, `bytes_processed` the counter of all clients.
pub record Client : Type 0 where
  pub mode : ClientMode
  pub msg : String
  pub size : List ℕ
  pub read_buffer : List ℕ
  pub read_ptr : ℕ
  pub read_end : ℕ
  pub size_ptr : ℕ
  pub msg_ptr : ℕ
  pub wire : List ℕ
  pub bytes_processed : ℕ

-- How an update ends: with 0, or with -1, which closes the client as it is then.
pub data Update : Type 0 where
  keep : Client → Update
  close : Client → Update

-- `read_ptr = 0; read_end = 0`
abbrev pub drained : Client → Client
drained c = record c { read_ptr = 0; read_end = 0 }

-- The `recv` of an update.
unfoldable pub fill_buffer : Client → Received → Option (Option Client)
fill_buffer c broken = some none
fill_buffer c (bytes []) = some none
fill_buffer c (bytes (x ∷ xs)) = do
  let status = length (x ∷ xs)
  guard (leb status buf_size)
  some (some (record c { read_buffer = (x ∷ xs) ++ drop status c.read_buffer; read_end = status }))

-- A loop that stops with `false` where the buffer has no byte left.
-- `for (; size_ptr < 4; size_ptr++)`, with `left` rounds to go.
unfoldable pub read_size : ℕ → Client → Option (Bool × Client)
read_size zero c = some (true, c)
read_size (suc left) c = elim (leb c.read_end c.read_ptr) [
  | true ↦ some (false, drained c)
  | false ↦ do
    x ← get_elem? c.read_buffer c.read_ptr
    read_size left (record c {
      size = set c.size c.size_ptr x;
      read_ptr = c.read_ptr + 1;
      size_ptr = c.size_ptr + 1;
    })
]

-- `for (; msg_ptr < msg_len; msg_ptr++)`, likewise.
unfoldable pub read_text : ℕ → Client → Option (Bool × Client)
unfolding string_append
read_text zero c = some (true, c)
read_text (suc left) c = elim (leb c.read_end c.read_ptr) [
  | true ↦ some (false, drained c)
  | false ↦ do
    x ← get_elem? c.read_buffer c.read_ptr
    msg ← string_append c.msg x
    read_text left (record c { msg = msg; read_ptr = c.read_ptr + 1; msg_ptr = c.msg_ptr + 1 })
]

-- How many characters the loop has to read: none for a size that is negative as an `int`.
abbrev pub to_read : ℕ → ℕ → ℕ
to_read msg_len msg_ptr = elim (ltb int_max msg_len) [ true ↦ 0 | false ↦ msg_len - msg_ptr ]

-- What an update reads from the buffer.
unfoldable pub read_buffered : Client → Option Client
unfolding read_size read_text
read_buffered c = do
  (sized, c₁) ← read_size (4 - c.size_ptr) c
  elim sized [
    | false ↦ some c₁
    | true ↦ do
      msg_len ← ntohl c₁.size
      (read, c₂) ← read_text (to_read msg_len c₁.msg_ptr) c₁
      elim read [
        | false ↦ some c₂
        | true ↦ do
          guard (leb (c₂.bytes_processed + (c₂.msg.len + 4)) int_max)
          some (record c₂ {
            msg_ptr = 0;
            size_ptr = 0;
            mode = writing;
            bytes_processed = c₂.bytes_processed + (c₂.msg.len + 4);
          })
      ]
  ]

-- The part of an update in which the client is read from.
unfoldable pub update_reading : Client → Received → Option Update
unfolding fill_buffer read_buffered
update_reading c received = do
  filled ← elim (c.read_ptr == 0) [ true ↦ fill_buffer c received | false ↦ some (some c) ]
  elim filled [ none ↦ some (close c) | some c' ↦ read_buffered c' >>= λ c''. some (keep c'') ]

-- What a `send` of these bytes takes.
abbrev pub taken : ℕ → List ℕ → ℕ
taken r text = elim (ltb r (length text)) [ true ↦ r | false ↦ length text ]

-- The part in which it is written to.
unfoldable pub update_writing : Client → Sent → Option Update
update_writing c sent = elim (ltb c.size_ptr 4) [
  | true ↦
      let rest = take (4 - c.size_ptr) (drop c.size_ptr c.size) in
      elim sent [
        | refused ↦ some (close c)
        | room r ↦ some (
            keep (record c {
              size_ptr = c.size_ptr + taken r rest;
              wire = c.wire ++ take (taken r rest) rest;
            }))
      ]
  | false ↦ elim (ltb c.msg_ptr c.msg.len) [
    | true ↦ do
      rest ← text_of c.msg.cells c.msg_ptr (c.msg.len - c.msg_ptr)
      elim sent [
        | refused ↦ some (close c)
        | room r ↦ some (
            keep (record c {
              msg_ptr = c.msg_ptr + taken r rest;
              wire = c.wire ++ take (taken r rest) rest;
            }))
      ]
    | false ↦ do
      msg ← string_clear c.msg
      some (keep (record c { msg = msg; msg_ptr = 0; size_ptr = 0; mode = reading }))
  ]
]

abbrev pub when_reading : ClientMode → Client → Bool → Received → Option Update
when_reading reading c in_event received = elim in_event [
  | true ↦ update_reading c received
  | false ↦ some (keep c)
]
when_reading writing c in_event received = some (keep c)

abbrev pub when_writing : ClientMode → Client → Bool → Sent → Option Update
when_writing reading c out_event sent = some (keep c)
when_writing writing c out_event sent = elim out_event [
  | true ↦ update_writing c sent
  | false ↦ some (keep c)
]

abbrev pub then_writing : Update → Bool → Sent → Option Update
then_writing (close c) out_event sent = some (close c)
then_writing (keep c) out_event sent = when_writing c.mode c out_event sent

-- `events` is whether EPOLLIN and whether EPOLLOUT is set.
unfoldable pub client_on_update : Client → Bool × Bool → Received → Sent → Option Update
unfolding update_reading update_writing
client_on_update c (in_event, out_event) received sent = do
  first ← when_reading c.mode c in_event received
  then_writing first out_event sent
