-- ===== src/Tests/Servers.antt =====
-- The server of examples/echo_epoll.c on the second of three addresses, with its first client.
use c_async_await.Base.{ℕ, ◌≡◌, ◌≢◌, refl, true, false, none, some, [], ◌∷◌, arith, ok}
use c_async_await.Echo.{bytes, room}
use c_async_await.Listen.{Address}
use c_async_await.Clients
use c_async_await.Clients.{server_new_client}
use c_async_await.Clients.Links.{socket_at}
use c_async_await.Clients.Keep.{IsLinked, server_new_client-IsLinked}
use c_async_await.Clients.Stop.{stop_server, stop_server_first}
use c_async_await.EpollServer.{Server, Event, Run, report, run_server}
use c_async_await.EpollServer.Invariant.{IsServer}
use c_async_await.EpollServer.Start.{start_server, Unused, start_server-IsServer}
use c_async_await.EpollServer.Rounds.{IsServed, run_server-IsServed}
use c_async_await.Tests.{value_or, landed, ok_or, landed_ok}

abbrev unknown : Address
unknown = record { socket = none; binds = false }

abbrev taken : Address
taken = record { socket = some 5; binds = false }

abbrev open_address : Address
open_address = record { socket = some 6; binds = true }

start_server-IsServer_example :
    (s : Server) × (start_server
        (some (unknown ∷ taken ∷ open_address ∷ taken ∷ []))
        true
        true
        (3 ∷ [])
      ≡ ok s)
    × IsServer s 1 [] 0
    × (s.accept_socket ≡ 6)
    × (s.watched 1 ≡ true)
    × ((b : ℕ) → 1 ≢ b → Unused s b)
start_server-IsServer_example =
    start_server-IsServer (unknown ∷ taken ∷ []) open_address (taken ∷ []) 6 (3 ∷ []) refl refl refl

-- Two clients.
abbrev nobody : Clients.Server
nobody = record { heap = λ a. none; clients = none; free_clients = none; fresh = 1 }

nobody-IsLinked : IsLinked nobody
nobody-IsLinked = record {
  unused = refl;
  links = record {
    below = λ a le. refl;
    front = λ d l q at. ground arith;
    nexts = λ a n l at q. absurd (ground arith);
    prevs = λ a p l at q. absurd (ground arith);
  };
  head = λ d q. absurd (ground arith);
}

abbrev one : Clients.Server
unfolding server_new_client
one = (value_or (0, nobody) (server_new_client nobody 6)).1

one_run : server_new_client nobody 6 ≡ some (1, one)
unfolding server_new_client one
one_run = refl

one-IsLinked : IsLinked one
one-IsLinked =
    let (server, runs, is, _, _) = server_new_client-IsLinked nobody-IsLinked 6 in
    landed (λ r. IsLinked r.1) one_run ((1, server), runs, is)

abbrev two : Clients.Server
unfolding server_new_client
two = (value_or (0, nobody) (server_new_client one 7)).1

two_run : server_new_client one 7 ≡ some (2, two)
unfolding server_new_client one two
two_run = refl

two-IsLinked : IsLinked two
unfolding server_new_client one
two-IsLinked =
    let (server, runs, is, _, _) = server_new_client-IsLinked one-IsLinked 7 in
    landed (λ r. IsLinked r.1) two_run ((2, server), runs, is)

stop_server_first_example :
    (server' : Clients.Server) × (stop_server 2 two ≡ some server')
    × (socket_at server'.heap 2 ≡ some 0)
    × ((b : ℕ) → 2 ≢ b → socket_at server'.heap b ≡ socket_at two.heap b)
unfolding server_new_client one two
stop_server_first_example = stop_server_first two-IsLinked 2 0 refl

-- The server that has started, and a round in which a client comes.
abbrev started : Server
unfolding start_server server_new_client
started =
    ok_or
      (record {
        links = nobody;
        states = λ a. none;
        accept_socket = 0;
        watched = λ a. false;
        bytes_processed = 0;
        current_client_cnt = 0;
      })
      (start_server (some (open_address ∷ [])) true true [])

abbrev comes : Event
comes = record {
  client = 1;
  in_event = true;
  out_event = false;
  hup = false;
  err = false;
  accepted = some 9;
  added = true;
  received = bytes [];
  sent = room 0;
}

started_run : start_server (some (open_address ∷ [])) true true [] ≡ ok started
unfolding start_server server_new_client started
started_run = refl

started-IsServer : IsServer started 1 [] 0
started-IsServer =
    let (s, runs, is, _, _, _) = start_server-IsServer [] open_address [] 6 [] refl refl refl in
    landed_ok (λ s. IsServer s 1 [] 0) started_run (s, runs, is)

run_server-IsServed_example :
    (r' : Run) × (run_server started 100
        (record { current_time = 101; events = some (comes ∷ []) } ∷ [])
      ≡ some r')
    × IsServed r' 1
unfolding start_server server_new_client started report
run_server-IsServed_example =
    run_server-IsServed started 1 100 [] 0
      (record { current_time = 101; events = some (comes ∷ []) } ∷ []) started-IsServer
      (
        (
          (refl, tt),
          (λ a m. ground arith),
          omega arith,
          (
            (λ k q. ((λ i. ground arith), (λ i. ground arith))),
            (λ c ne q. absurd (ne refl)),
            λ s' e. tt,
          ),
        ),
        λ r' e. tt,
      )
