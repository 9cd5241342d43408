-- ===== src/EpollServer/Start.antt =====
-- `start_server` of examples/echo_epoll.c.
use c_async_await.Base.{
  ℕ, ◌≡◌, ◌≢◌, refl, ◌∙◌, ap, Bool, true, false, Option, none, some, List, [], ◌∷◌, ◌++◌,
  if◌then◌else◌, arith, Outcome, ok, exit, lift, bind,
}
use c_async_await.Listen.{Address, open_socket, none_usable, open_socket-first}
use c_async_await.Clients.{server_new_client}
use c_async_await.Clients
use c_async_await.Clients.Links.{socket_at}
use c_async_await.Clients.Keep.{IsLinked, server_new_client-IsLinked}
use c_async_await.EpollServer.{Server, write, new_client}
use c_async_await.EpollServer.Invariant.{IsServer}

-- `Server server = {0}`; the first address that `calloc` returns is 1.
abbrev pub no_clients : Clients.Server
no_clients = record { heap = λ a. none; clients = none; free_clients = none; fresh = 1 }

-- The client that stands for the socket that listens, and whether `epoll_ctl` adds it.
abbrev pub watch_socket : Bool → ℕ → Outcome Server
watch_socket added socket = bind (lift (server_new_client no_clients socket)) λ r.
    if added
    then ok (record {
      links = r.1;
      states = write r.0 (some new_client) (λ a. none);
      accept_socket = socket;
      watched = write r.0 true (λ a. false);
      bytes_processed = 0;
      current_client_cnt = 0;
    })
    else exit 1

unfoldable pub start_server : Option (List Address) → Bool → Bool → List ℕ → Outcome Server
unfolding open_socket
start_server addresses listens added opened =
    bind (open_socket addresses listens opened) λ r. watch_socket added r.0

no_clients-IsLinked : IsLinked no_clients
no_clients-IsLinked = record {
  unused = refl;
  links = record {
    below = λ a le. refl;
    front = λ d l q at. ground arith;
    nexts = λ a n l at q. absurd (ground arith);
    prevs = λ a p l at q. absurd (ground arith);
  };
  head = λ d q. absurd (ground arith);
}

-- No client is at that address: no socket is open there, no state is there, and nothing is watched.
abbrev pub Unused : Server → ℕ → Type 0
Unused s b = (socket_at s.links.heap b ≡ none) × (s.states b ≡ none) × (s.watched b ≡ false)

-- When an address has a socket that can be bound, and none before it does, and `listen` and
-- `epoll_ctl` succeed, `start_server` leaves a well formed server that listens on that socket, is
-- told of its events, and has no other client: no other address has a socket or a state, or is
-- watched.
pub start_server-IsServer :
    (before : List Address) (info : Address) (after : List Address) (k : ℕ) (opened : List ℕ)
    → none_usable before ≡ true
    → info.socket ≡ some k
    → info.binds ≡ true
    → (s : Server) × (start_server (some (before ++ info ∷ after)) true true opened ≡ ok s)
      × IsServer s 1 [] 0
      × (s.accept_socket ≡ k)
      × (s.watched 1 ≡ true)
      × ((b : ℕ) → 1 ≢ b → Unused s b)
unfolding start_server
start_server-IsServer before info after k opened e at binds =
    let (links, runs, linked, at_d, others) = server_new_client-IsLinked no_clients-IsLinked k in
    (
      record {
        links = links;
        states = write 1 (some new_client) (λ a. none);
        accept_socket = k;
        watched = write 1 true (λ a. false);
        bytes_processed = 0;
        current_client_cnt = 0;
      },
      ap (λ o. bind o λ r. watch_socket true r.0)
            (open_socket-first before info after k opened e at binds)
          ∙ rw runs refl,
      record {
        linked = linked;
        listens = at_d;
        distinct = tt;
        opened = λ a m. absurd (ground arith);
        watch = λ a q. ground arith;
        counted = refl;
      },
      refl,
      refl,
      λ b ne. (others b ne, ground arith, ground arith),
    )
