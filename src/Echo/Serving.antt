-- ===== src/Echo/Serving.antt =====
-- What a client of the echo server gets back: its messages, one by one.
use c_async_await.Base.{
  ℕ, suc, ◌+◌, ◌≤◌, ◌<◌, ◌≡◌, refl, ◌∙◌, sym, ap, false, none, some, List, [], ◌∷◌, ◌++◌, leb,
  le→leb, true, int_max, length, replicate, arith, length-append,
}
use mathlib.Core.List.{append_assoc, append-nil}
use c_async_await.Echo.{
  buf_size, returned, Server, fail, take_message, echo_round, leave, echo_rounds, echo_loop,
  Counters, back, add_bytes, one_more, one_less,
}
use c_async_await.Echo.Stream.{stream, ending, Fits, pending}
use c_async_await.Echo.Reading.{read_n_bytes-short}
use c_async_await.Echo.Writing.{Willing}
use c_async_await.Str.{string_init}
use c_async_await.Str.Text.{string_init-IsString}
use c_async_await.Echo.Message.{frame}
use c_async_await.Echo.Turns.{Serves, echo_round-Echoed}

-- All the messages, each behind its size.
abbrev pub frames : List (List ℕ) → List ℕ
frames [] = []
frames (body ∷ bodies) = frame body ++ frames bodies

abbrev pub Short : List (List ℕ) → Type 0
Short [] = Unit {0}
Short (body ∷ bodies) = (length body + 1 ≤ int_max) × Short bodies

-- The counters when the client has left, from its `k`th visit on: it adds the bytes of each message
-- to what it finds, and takes itself off the count that it finds at the end.
abbrev pub counters_after : (ℕ → Counters → Counters) → ℕ → List (List ℕ) → Counters → Counters
counters_after meanwhile k [] c = one_less (meanwhile k c)
counters_after meanwhile k (body ∷ bodies) c =
    counters_after meanwhile (k + 1) bodies (add_bytes (length (frame body)) (meanwhile k c))

-- Each of these sums fits an `int`, and the client is still counted at the end.
abbrev pub CountersFit : (ℕ → Counters → Counters) → ℕ → List (List ℕ) → Counters → Type 0
CountersFit meanwhile k [] c = 1 ≤ (meanwhile k c).current_client_cnt
CountersFit meanwhile k (body ∷ bodies) c =
    ((meanwhile k c).bytes_processed + length (frame body) ≤ int_max)
    × CountersFit meanwhile (k + 1) bodies (add_bytes (length (frame body)) (meanwhile k c))

-- What the loop leaves once the peer has closed.
record Served (bodies : List (List ℕ)) (server server' : Server) : Type 0 where
  wires : server'.wire ≡ server.wire ++ frames bodies
  counted : server'.counters ≡ counters_after server.meanwhile server.visits bodies server.counters
  closed : server'.is_open ≡ false

echo_round-fail :
    (server : Server)
    → Serves server
    → pending server.buf server.input ≡ []
    → ending server.input ≡ returned 0
    → CountersFit server.meanwhile server.visits [] server.counters
    → (failed left : Server) × (echo_round server ≡ some (fail failed))
      × (leave failed ≡ some left)
      × Served [] server left
unfolding echo_round
echo_round-fail server s empty last fit =
    let (res, reads, end, text) =
      read_n_bytes-short 4 server.buf server.input s.good s.fits (omega (arith, ap length empty)) in
    let failed : Server = record server { buf = res.buf; input = res.input } in
    let seen = back failed in
    let there : leb 1 seen.counters.current_client_cnt ≡ true = le→leb 1 _ fit in
    (
      failed,
      record seen { counters = one_less seen.counters; msg = string_init; is_open = false },
      rw (reads, end ∙ last) refl,
      rw there refl,
      record { wires = sym (append-nil server.wire); counted = refl; closed = refl },
    )

echo_rounds-Served :
    (bodies : List (List ℕ)) (server : Server)
    → Serves server
    → pending server.buf server.input ≡ frames bodies
    → ending server.input ≡ returned 0
    → Short bodies
    → CountersFit server.meanwhile server.visits bodies server.counters
    → length (frames bodies) ≤ length server.output
    → (server' : Server) × (echo_rounds (suc (length bodies)) server ≡ some (fail server'))
      × Served bodies server server'
unfolding echo_rounds
echo_rounds-Served [] server s comes last short counted enough =
    let (failed, server', runs, left, served) = echo_round-fail server s comes last counted in
    (server', rw (runs, left) refl, served)
echo_rounds-Served (body ∷ bodies) server s comes last short counted enough =
    let total = length-append (frame body) (frames bodies) in
    let (server₁, one, e) =
      echo_round-Echoed body (frames bodies) server s comes short.0 counted.0
        (omega (arith, total, enough)) in
    let (server', rest, served) =
      echo_rounds-Served bodies server₁ e.serves e.to_come (e.same_end ∙ last) short.1
        (rw (e.counted, e.same_others, e.visited) counted.1)
        (omega (arith, total, enough, e.used)) in
    (
      server',
      rw one rest,
      record {
        wires = served.wires ∙ rw e.wires (append_assoc server.wire (frame body) (frames bodies));
        counted = served.counted ∙ rw (e.counted, e.same_others, e.visited) refl;
        closed = served.closed;
      },
    )

-- When what arrives in chunks of at most 256 bytes is a sequence of messages, each behind its size
-- in network order, whose length and a terminator fit an `int`, and then the end of the connection,
-- the count of clients is below the greatest `int` at the start, and, whatever the other coroutines
-- do to the counters while this one awaits, the sums fit an `int` and a client is counted at the
-- end, and each `send` takes a byte at least and there are enough of them, `echo_loop` on one round
-- more than there are messages ends: the same bytes, in order, were sent back, the counters are
-- those that it found at each visit with one client more at its start, the bytes of each message
-- added and one client less at its end, and the socket is closed.
pub echo_loop-Served :
    (bodies : List (List ℕ)) (server : Server)
    → Fits server.input
    → stream server.input ≡ frames bodies
    → ending server.input ≡ returned 0
    → Short bodies
    → server.counters.current_client_cnt < int_max
    → CountersFit server.meanwhile server.visits bodies (one_more server.counters)
    → Willing server.output
    → length (frames bodies) ≤ length server.output
    → (server' : Server) × (echo_loop (suc (length bodies)) server ≡ some (fail server'))
      × (server'.wire ≡ server.wire ++ frames bodies)
      × (server'.counters
          ≡ counters_after server.meanwhile server.visits bodies (one_more server.counters))
      × (server'.is_open ≡ false)
unfolding echo_loop
echo_loop-Served bodies server fits comes last short below counted willing enough =
    let start : Server = record server {
      buf = record { buffer = replicate buf_size 0; start = 0; end = 0 };
      msg = string_init;
      counters = one_more server.counters;
    } in
    let s : Serves start = record {
      good = record { ordered = omega arith; inside = omega arith };
      fits = fits;
      willing = willing;
      text = [];
      holds = string_init-IsString;
    } in
    let (server', runs, served) =
      echo_rounds-Served bodies start s comes last short counted enough in
    let room : leb (server.counters.current_client_cnt + 1) int_max ≡ true =
      le→leb _ _ (omega (arith, below)) in
    (server', rw room runs, served.wires, served.counted, served.closed)

-- A client that sends a negative size after a message makes the server write outside the message.
pub take_message_negative :
    (server : Server) (size : List ℕ) (n : ℕ)
    → int_max < n
    → 0 < server.msg.cap
    → take_message n size server ≡ none
unfolding take_message
take_message_negative server size n big has = ground arith
