-- ===== src/EpollServer.antt =====
-- The loop of the server of examples/echo_epoll.c: `run_server`, with its clients, their links, the
-- counters, and the descriptors that `epoll` watches. What the kernel brings is a parameter: the
-- clock, the events of each `epoll_wait`, and what `accept`, `epoll_ctl`, `recv` and `send` return.
pub mod Invariant
pub mod Events
pub mod Batch
pub mod Start
pub mod Rounds
use c_async_await.Base.{
  ℕ, zero, suc, ◌+◌, ◌-◌, ◌*◌, ◌%◌, ◌^◌, Bool, true, false, Option, none, some, List, [], ◌∷◌, ◌++◌,
  leb, ◌==◌, ◌||◌, if◌then◌else◌, ◌>>=◌, ◌>>◌, guard, int_max, not, replicate,
}
use c_async_await.Echo.{Received, Sent, buf_size}
use c_async_await.Str.{string_init}
use c_async_await.Epoll.{Client, reading, Update, keep, close, client_on_update}
use c_async_await.Clients.{server_new_client, server_close_client}
use c_async_await.Clients

-- `states` holds what a client has besides its links and its socket; `watched` are the clients
-- whose sockets were added to `epoll_fd` and not closed since. The count is the 32 bits of an `int`.
pub record Server : Type 0 where
  pub links : Clients.Server
  pub states : ℕ → Option Client
  pub accept_socket : ℕ
  pub watched : ℕ → Bool
  pub bytes_processed : ℕ
  pub current_client_cnt : ℕ

-- A `struct epoll_event`, and what the calls that it leads to return.
pub record Event : Type 0 where
  pub client : ℕ
  pub in_event : Bool
  pub out_event : Bool
  pub hup : Bool
  pub err : Bool
  pub accepted : Option ℕ
  pub added : Bool
  pub received : Received
  pub sent : Sent

abbrev pub write {ℓ} : {A : Type ℓ} → ℕ → A → (ℕ → A) → ℕ → A
write a x f = λ b. if a == b then x else f b

-- `*client = (Client){0}; string_init(&client->msg);` and `mode = Reading`
abbrev pub new_client : Client
new_client = record {
  mode = reading;
  msg = string_init;
  size = replicate 4 0;
  read_buffer = replicate buf_size 0;
  read_ptr = 0;
  read_end = 0;
  size_ptr = 0;
  msg_ptr = 0;
  wire = [];
  bytes_processed = 0;
}

-- The client that was accepted, and whether `epoll_ctl` adds it.
abbrev pub add_client : Server → Bool → ℕ → Option Server
add_client s added socket = do
  (a, links) ← server_new_client s.links socket
  some (record s {
    links = links;
    states = write a (some new_client) s.states;
    watched = if added then write a true s.watched else s.watched;
  })

-- An event of the listening socket.
unfoldable pub on_accept : Server → Event → Option Server
on_accept s e = do
  guard (not (s.current_client_cnt == int_max))
  let s₁ = record s { current_client_cnt = (s.current_client_cnt + 1) % 2 ^ 32 }
  elim e.accepted [ none ↦ some s₁ | some socket ↦ add_client s₁ e.added socket ]

-- `server_close_client(s, client)` and `current_client_cnt--`; the descriptor is closed, so `epoll`
-- forgets it.
unfoldable pub on_close : Server → ℕ → Client → Option Server
on_close s a c = do
  links ← server_close_client s.links a
  guard (not (s.current_client_cnt == 2 ^ 31))
  some (record s {
    links = links;
    states = write a (some (record c { msg = string_init })) s.states;
    watched = write a false s.watched;
    current_client_cnt = (s.current_client_cnt + (2 ^ 32 - 1)) % 2 ^ 32;
  })

-- `status == -1 || events & EPOLLHUP || events & EPOLLERR`
abbrev pub when_updated : Server → Event → Update → Option Server
when_updated s e (close c) = on_close (record s { bytes_processed = c.bytes_processed }) e.client c
when_updated s e (keep c) =
    let s₁ = record s {
      bytes_processed = c.bytes_processed;
      states = write e.client (some c) s.states;
    } in
    elim (e.hup || e.err) [ true ↦ on_close s₁ e.client c | false ↦ some s₁ ]

-- The client with the counter of all clients, which its update reads and writes.
abbrev pub update_of : Server → Event → Client → Option Update
update_of s e c =
    client_on_update (record c { bytes_processed = s.bytes_processed }) (e.in_event, e.out_event)
      e.received e.sent

-- What the socket of the client that the event points to decides.
abbrev pub on_socket : Server → Event → ℕ → Option Server
on_socket s e socket = elim (socket == s.accept_socket) [
  | true ↦ on_accept s e
  | false ↦ do
    guard (not (socket == 0))
    c ← s.states e.client
    update ← update_of s e c
    when_updated s e update
]

-- The body of the loop over the events.
unfoldable pub on_event : Server → Event → Option Server
on_event s e = do link ← s.links.heap e.client; on_socket s e link.socket

unfoldable pub on_events : Server → List Event → Option Server
unfolding on_event
on_events s [] = some s
on_events s (e ∷ es) = do s' ← on_event s e; on_events s' es

-- What `printf` shows: the seconds since the start, the count and the bytes. A `long` is its 64 bits.
pub record Line : Type 0 where
  pub seconds : ℕ
  pub clients : ℕ
  pub bytes : ℕ

-- A round of the loop: what `time` says, and the events, or none when `epoll_wait` fails.
pub record Round : Type 0 where
  pub current_time : ℕ
  pub events : Option (List Event)

pub record Run : Type 0 where
  pub server : Server
  pub server_start_time : ℕ
  pub last_message_time : ℕ
  pub lines : List Line

-- The line of each second.
unfoldable pub report : Run → ℕ → Run
report r current_time =
    if leb (r.last_message_time + 1) current_time
    then record {
      server = record r.server { bytes_processed = 0 };
      server_start_time = r.server_start_time;
      last_message_time = current_time;
      lines =
          r.lines
          ++ record {
            seconds = (current_time + (2 ^ 64 - r.server_start_time)) % 2 ^ 64;
            clients = r.server.current_client_cnt;
            bytes = r.server.bytes_processed;
          }
            ∷ [];
    }
    else r

unfoldable pub round : Run → Round → Option Run
unfolding report on_events
round r step =
    let r₁ = report r step.current_time in
    elim step.events [
      | none ↦ some r₁
      | some es ↦ on_events r₁.server es >>= λ s. some (record r₁ { server = s })
    ]

-- The loop, over these rounds.
unfoldable pub rounds : Run → List Round → Option Run
unfolding round
rounds r [] = some r
rounds r (step ∷ steps) = do r' ← round r step; rounds r' steps

unfoldable pub run_server : Server → ℕ → List Round → Option Run
unfolding rounds
run_server s time steps =
    rounds (record { server = s; server_start_time = time; last_message_time = time; lines = [] })
      steps
