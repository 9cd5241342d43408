-- ===== src/Echo.antt =====
-- The echo server of examples/echo_async.c: `read_n_bytes`, `write_n_bytes` and `echo_loop`, for one
-- client. What the awaited calls of `recv` and `send` bring is a parameter, in the order of the calls,
-- and so is what the other coroutines do to the counters while this one awaits.
pub mod Stream
pub mod Rounds
pub mod Reading
pub mod Writing
pub mod Message
pub mod Turns
pub mod Serving
use c_async_await.Base.{
  ℕ, zero, suc, ◌+◌, ◌-◌, ◌*◌, ◌^◌, Bool, true, false, Option, none, some, List, [], ◌∷◌, ◌++◌, ltb,
  leb, ◌==◌, if◌then◌else◌, ◌>>=◌, ◌>>◌, guard, int_max, length, get_elem?, take, drop, replicate,
}
use c_async_await.Sockets.{failed}
use c_async_await.Str.{String, string_init, copy_in, string_clear, string_resize}

-- `BUF_SIZE`
abbrev pub buf_size : ℕ
buf_size = 256

-- What a `recv` brings: the bytes that it wrote, none when the peer has closed, or -1.
pub data Received : Type 0 where
  bytes : List ℕ → Received
  broken : Received

-- What a `send` finds: room for that many bytes, of which it takes no more than it has, or -1.
pub data Sent : Type 0 where
  room : ℕ → Sent
  refused : Sent

-- A call that awaits an event which never comes does not return.
pub data Status : Type 0 where
  returned : ℕ → Status
  waits : Status

pub record Buffer : Type 0 where
  pub buffer : List ℕ
  pub start : ℕ
  pub end : ℕ

-- The buffer when there is something to read in it, or the reason why there is nothing.
pub data Refill : Type 0 where
  ready : Buffer → List Received → Refill
  stopped : Status → List Received → Refill

abbrev pub receive : Buffer → List Received → Option Refill
receive buf [] = some (stopped waits [])
receive buf (broken ∷ input) = some (stopped (returned failed) input)
receive buf (bytes [] ∷ input) = some (stopped (returned 0) input)
receive buf (bytes (x ∷ xs) ∷ input) = do
  let status = length (x ∷ xs)
  guard (leb status buf_size)
  some (
      ready (record { buffer = (x ∷ xs) ++ drop status buf.buffer; start = 0; end = status }) input)

abbrev pub refill : Buffer → List Received → Option Refill
refill buf input = if buf.start == buf.end then receive buf input else some (ready buf input)

-- The result, what `out` holds, the buffer and the events to come.
pub record ReadResult : Type 0 where
  pub outcome : Status
  pub out : List ℕ
  pub buf : Buffer
  pub input : List Received

abbrev pub write_amount : ℕ → Buffer → ℕ
write_amount want buf = if ltb (buf.end - buf.start) want then buf.end - buf.start else want

-- The loop of `read_n_bytes`, with `amt` bytes in `out`.
unfoldable pub read_rounds : ℕ → ℕ → ℕ → List ℕ → Buffer → List Received → Option ReadResult
read_rounds zero n amt out buf input = none
read_rounds (suc fuel) n amt out buf input = elim (ltb amt n) [
  | false ↦ some (record { outcome = returned amt; out = out; buf = buf; input = input })
  | true ↦ do
    filled ← refill buf input
    elim filled [
      | stopped why input' ↦ some (record { outcome = why; out = out; buf = buf; input = input' })
      | ready buf' input' ↦ do
        guard (ltb buf'.start buf'.end)
        let write_amt = write_amount (n - amt) buf'
        read_rounds fuel n (amt + write_amt) (out ++ take write_amt (drop buf'.start buf'.buffer))
            (record buf' { start = buf'.start + write_amt }) input'
    ]
]

-- Each round copies a byte at least, so `n` rounds and the last test are enough.
unfoldable pub read_n_bytes : ℕ → Buffer → List Received → Option ReadResult
unfolding read_rounds
read_n_bytes n buf input = read_rounds (suc n) n 0 [] buf input

-- The result, the bytes on the wire, and the events to come.
pub record WriteResult : Type 0 where
  pub outcome : Status
  pub wire : List ℕ
  pub output : List Sent

-- The loop of `write_n_bytes`: a round for each event.
unfoldable pub write_rounds : ℕ → List ℕ → ℕ → List ℕ → List Sent → WriteResult
write_rounds n msg sent_amt wire [] = record {
  outcome = if ltb sent_amt n then waits else returned sent_amt;
  wire = wire;
  output = [];
}
write_rounds n msg sent_amt wire (refused ∷ output) =
    if ltb sent_amt n
    then record { outcome = returned failed; wire = wire; output = output }
    else record { outcome = returned sent_amt; wire = wire; output = refused ∷ output }
write_rounds n msg sent_amt wire (room r ∷ output) =
    let status = if ltb r (n - sent_amt) then r else n - sent_amt in
    let rest =
      write_rounds n msg (sent_amt + status) (wire ++ take status (drop sent_amt msg)) output in
    if ltb sent_amt n
    then rest
    else record { outcome = returned sent_amt; wire = wire; output = room r ∷ output }

unfoldable pub write_n_bytes : ℕ → List ℕ → List ℕ → List Sent → WriteResult
unfolding write_rounds
write_n_bytes n msg wire output = write_rounds n msg 0 wire output

-- `ntohl(*(uint32_t *)size)`
unfoldable pub ntohl : List ℕ → Option ℕ
ntohl size = do
  a ← get_elem? size 0
  b ← get_elem? size 1
  c ← get_elem? size 2
  d ← get_elem? size 3
  some (((a * 256 + b) * 256 + c) * 256 + d)

-- The bytes of `str` from `i` on; one that was never written is not sent.
abbrev pub text_of : (ℕ → Option ℕ) → ℕ → ℕ → Option (List ℕ)
text_of cells i zero = some []
text_of cells i (suc n) = do c ← cells i; cs ← text_of cells (i + 1) n; some (c ∷ cs)

-- The variables that all coroutines of the server share.
pub record Counters : Type 0 where
  pub current_client_cnt : ℕ
  pub bytes_processed : ℕ

-- The client's coroutine, its socket and the counters as it last saw them. `meanwhile k` is what
-- the other coroutines do to the counters before this one comes to them for the `k`th time after
-- its start: other clients add to both, and `server_stats` resets the bytes.
pub record Server : Type 0 where
  pub buf : Buffer
  pub input : List Received
  pub output : List Sent
  pub wire : List ℕ
  pub msg : String
  pub counters : Counters
  pub meanwhile : ℕ → Counters → Counters
  pub visits : ℕ
  pub is_open : Bool

-- How a round of the loop ends: with the next one, at `fail`, or awaiting for ever.
pub data Turn : Type 0 where
  again : Server → Turn
  fail : Server → Turn
  hangs : Server → Turn

-- `if (... != n) goto fail;`
abbrev pub unless : Status → ℕ → Server → Option Turn → Option Turn
unless waits n server rest = some (hangs server)
unless (returned k) n server rest = if k == n then rest else some (fail server)

-- What is echoed once the message is read: its size, then its text.
unfoldable pub write_back : ℕ → List ℕ → Server → Option Turn
unfolding write_n_bytes
write_back msg_len size server =
    let header = write_n_bytes 4 size server.wire server.output in
    let server₁ = record server { wire = header.wire; output = header.output } in
    unless header.outcome 4 server₁ do
      text ← text_of server.msg.cells 0 msg_len
      let body = write_n_bytes msg_len text header.wire header.output
      let server₂ = record server₁ { wire = body.wire; output = body.output }
      unless body.outcome msg_len server₂ (some (again server₂))

-- `string_clear`, `string_resize` and what is read into the text.
unfoldable pub read_message : ℕ → List ℕ → Server → Option Turn
unfolding read_n_bytes write_back
read_message msg_len size server = do
  cleared ← string_clear server.msg
  resized ← string_resize cleared msg_len b'!'
  body ← read_n_bytes msg_len server.buf server.input
  msg ← copy_in resized 0 (get_elem? body.out) (length body.out) 0 (length body.out)
  let server₁ = record server { buf = body.buf; input = body.input; msg = msg }
  unless body.outcome msg_len server₁ (write_back msg_len size server₁)

-- The coroutine comes to the counters again.
abbrev pub back : Server → Server
back server = record server {
  counters = server.meanwhile server.visits server.counters;
  visits = server.visits + 1;
}

-- `bytes_processed += n`
abbrev pub add_bytes : ℕ → Counters → Counters
add_bytes n counters = record counters { bytes_processed = counters.bytes_processed + n }

-- A size that is negative as an `int` ends the loop, but where the message has memory the zero is
-- written before its start first. `bytes_processed` is not followed there.
unfoldable pub take_message : ℕ → List ℕ → Server → Option Turn
unfolding read_message
take_message msg_len size server =
    let seen = back server in
    elim (ltb int_max msg_len) [
      | true ↦ guard (server.msg.cap == 0) >> some (fail seen)
      | false ↦ do
        guard (leb (seen.counters.bytes_processed + (msg_len + 4)) int_max)
        read_message msg_len size (record seen { counters = add_bytes (msg_len + 4) seen.counters })
    ]

-- A round of the loop.
unfoldable pub echo_round : Server → Option Turn
unfolding read_n_bytes take_message
echo_round server = do
  header ← read_n_bytes 4 server.buf server.input
  let server₁ = record server { buf = header.buf; input = header.input }
  unless header.outcome 4 server₁
      do msg_len ← ntohl header.out; take_message msg_len header.out server₁

-- `current_client_cnt--`
abbrev pub one_less : Counters → Counters
one_less counters = record counters { current_client_cnt = counters.current_client_cnt - 1 }

-- What follows the loop. A count below zero is not followed.
abbrev pub leave : Server → Option Server
leave server = do
  let seen = back server
  guard (leb 1 seen.counters.current_client_cnt)
  some (record seen { counters = one_less seen.counters; msg = string_init; is_open = false })

unfoldable pub echo_rounds : ℕ → Server → Option Turn
unfolding echo_round
echo_rounds zero server = none
echo_rounds (suc fuel) server = do
  turn ← echo_round server
  elim turn [
    | again server' ↦ echo_rounds fuel server'
    | fail server' ↦ leave server' >>= λ left. some (fail left)
    | hangs server' ↦ some (hangs server')
  ]

-- `current_client_cnt++`
abbrev pub one_more : Counters → Counters
one_more counters = record counters { current_client_cnt = counters.current_client_cnt + 1 }

unfoldable pub echo_loop : ℕ → Server → Option Turn
unfolding echo_rounds
echo_loop fuel server = do
  guard (leb (server.counters.current_client_cnt + 1) int_max)
  echo_rounds fuel (record server {
    buf = record { buffer = replicate buf_size 0; start = 0; end = 0 };
    msg = string_init;
    counters = one_more server.counters;
  })
