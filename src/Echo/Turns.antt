-- ===== src/Echo/Turns.antt =====
-- A round of `echo_loop`: a message is read and written back.
use c_async_await.Base.{
  ℕ, ◌+◌, ◌≤◌, ◌≡◌, refl, ◌∙◌, ap, true, false, some, List, ◌++◌, ltb, ◌==◌, le→leb, int_max,
  length, take, drop, arith, take-length, drop-length, take-append, drop-append, length-append,
}
use c_async_await.Echo.{
  returned, Server, again, ReadResult, read_n_bytes, read_message, take_message, echo_round, back,
  add_bytes,
}
use c_async_await.Echo.Stream.{IsBuffer, ending, Fits, pending}
use c_async_await.Echo.Reading.{read_n_bytes-enough}
use c_async_await.Echo.Writing.{Willing}
use c_async_await.Str.Text.{IsString}
use c_async_await.Echo.Message.{htonl, frame, ntohl-htonl, overwrite, prepared, write_back-Wrote}

-- What a reader and a writer rely on.
pub record Serves (server : Server) : Type 0 where
  pub good : IsBuffer server.buf
  pub fits : Fits server.input
  pub willing : Willing server.output
  pub text : List ℕ
  pub holds : IsString server.msg text

-- After a round, with one message less to come.
pub record Echoed (body later : List ℕ) (server server' : Server) : Type 0 where
  pub serves : Serves server'
  pub wires : server'.wire ≡ server.wire ++ frame body
  pub to_come : pending server'.buf server'.input ≡ later
  pub same_end : ending server'.input ≡ ending server.input
  pub used : length server.output ≤ length server'.output + length (frame body)
  pub counted :
      server'.counters
      ≡ add_bytes (length (frame body)) (server.meanwhile server.visits server.counters)
  pub same_others : server'.meanwhile ≡ server.meanwhile
  pub visited : server'.visits ≡ server.visits + 1

read_message-Echoed :
    (size body later : List ℕ) (server : Server) {text : List ℕ}
    → IsBuffer server.buf
    → Fits server.input
    → Willing server.output
    → IsString server.msg text
    → length size ≡ 4
    → pending server.buf server.input ≡ body ++ later
    → length body + 1 ≤ int_max
    → 4 + length body ≤ length server.output
    → (server' : Server) × (read_message (length body) size server ≡ some (again server'))
      × Serves server'
      × (server'.wire ≡ server.wire ++ (size ++ body))
      × (pending server'.buf server'.input ≡ later)
      × (ending server'.input ≡ ending server.input)
      × (length server.output ≤ length server'.output + length (size ++ body))
      × (server'.counters ≡ server.counters)
      × (server'.meanwhile ≡ server.meanwhile)
      × (server'.visits ≡ server.visits)
unfolding read_message
read_message-Echoed size body later server good fits willing h four comes small enough =
    let n = length body in
    let (c, r, cleared, resized, (ys, hr, long)) = prepared n b'!' h small in
    let total = length-append body later in
    let (res, reads, end, text, left) =
      read_n_bytes-enough n server.buf server.input good fits
        (omega (arith, total, ap length comes)) in
    let out : res.out ≡ body =
      text ∙ (ap (take n) comes ∙ (take-append n body later (omega arith) ∙ take-length body)) in
    let rest : drop n (body ++ later) ≡ later =
      drop-append n body later (omega arith) ∙ ap (◌++ later) (drop-length body) in
    let (msg, copied, hm) = overwrite body hr long in
    let s₁ = record server { buf = res.buf; input = res.input; msg = msg } in
    let (wire, output, writes, wrote) = write_back-Wrote size body s₁ hm willing four enough in
    let same : n == n ≡ true = ground arith in
    (
      record s₁ { wire = wire; output = output },
      rw (cleared, resized, reads, out, copied, end, same) writes,
      record { good = left.0; fits = left.1; willing = wrote.willing; text = body; holds = hm },
      wrote.wires,
      left.2 ∙ (ap (drop n) comes ∙ rest),
      left.3,
      wrote.used,
      refl,
      refl,
      refl,
    )

ltb-false : (a b : ℕ) → b ≤ a → ltb a b ≡ false
ltb-false a b le = ground arith

-- The server when it has counted a message of that length.
abbrev counts : ℕ → Server → Server
counts n server = record (back server) { counters = add_bytes (n + 4) (back server).counters }

take_message-read_message :
    (n : ℕ) (size : List ℕ) (server : Server)
    → n ≤ int_max
    → (back server).counters.bytes_processed + (n + 4) ≤ int_max
    → take_message n size server ≡ read_message n size (counts n server)
unfolding take_message
take_message-read_message n size server small counted =
    let low = ltb-false int_max n small in
    let fits = le→leb ((back server).counters.bytes_processed + (n + 4)) int_max counted in
    rw (take_message, low) (rw fits refl)

read_header :
    (n : ℕ) (server : Server) (res : ReadResult)
    → read_n_bytes 4 server.buf server.input ≡ some res
    → res.outcome ≡ returned 4
    → res.out ≡ htonl n
    → n ≤ int_max
    → (back server).counters.bytes_processed + (n + 4) ≤ int_max
    → echo_round server
      ≡ read_message n (htonl n) (counts n (record server { buf = res.buf; input = res.input }))
unfolding echo_round
read_header n server res reads end out small counted =
    let s₁ = record server { buf = res.buf; input = res.input } in
    rw (reads, end, out, ntohl-htonl n) (take_message-read_message n (htonl n) s₁ small counted)

pub echo_round-Echoed :
    (body later : List ℕ) (server : Server)
    → Serves server
    → pending server.buf server.input ≡ frame body ++ later
    → length body + 1 ≤ int_max
    → (back server).counters.bytes_processed + length (frame body) ≤ int_max
    → length (frame body) ≤ length server.output
    → (server' : Server) × (echo_round server ≡ some (again server'))
      × Echoed body later server server'
unfolding echo_round
echo_round-Echoed body later server s comes small counted enough =
    let n = length body in
    let size = htonl n in
    let (res, reads, end, text, left) =
      read_n_bytes-enough 4 server.buf server.input s.good s.fits
        (omega (arith, ap length comes)) in
    let out : res.out ≡ size = text ∙ ap (take 4) comes in
    let s₁ = counts n (record server { buf = res.buf; input = res.input }) in
    let sum : n + 4 ≡ length (frame body) = omega arith in
    let (server', runs, serves, wires, to_come, same_end, used, counted', same_others, visited) =
      read_message-Echoed size body later s₁ left.0 left.1 s.willing s.holds refl
        (left.2 ∙ ap (drop 4) comes) small (omega (arith, enough)) in
    (
      server',
      read_header n server res reads end out (omega (arith, small)) (omega (arith, counted)) ∙ runs,
      record {
        serves = serves;
        wires = wires;
        to_come = to_come;
        same_end = same_end ∙ left.3;
        used = used;
        counted =
            counted' ∙ ap (λ k. add_bytes k (server.meanwhile server.visits server.counters)) sum;
        same_others = same_others;
        visited = visited;
      },
    )
