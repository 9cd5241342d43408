-- ===== src/Clients/Stop.antt =====
-- `stop_server` of examples/echo_epoll.c on the lists of clients.
use c_async_await.Base.{
  ℕ, zero, suc, ◌≡◌, ◌≢◌, refl, ◌∙◌, ap, Option, none, some, ◌==◌, if◌then◌else◌, ◌>>=◌,
}
use c_async_await.Clients.{Link, Heap, Server, server_close_client}
use c_async_await.Clients.Links.{socket_at}
use c_async_await.Clients.Keep.{IsLinked, server_close_client-IsLinked}

-- `for (client = s->clients; client; client = client->next) server_close_client(s, client);`
unfoldable pub close_clients : ℕ → Server → Option ℕ → Option Server
close_clients zero server cur = none
close_clients (suc fuel) server none = some server
close_clients (suc fuel) server (some a) = do
  server' ← server_close_client server a
  link ← server'.heap a
  close_clients fuel server' link.next

-- The loop that frees the clients of the free list.
unfoldable pub release_clients : ℕ → Heap → Option ℕ → Option Heap
release_clients zero heap cur = none
release_clients (suc fuel) heap none = some heap
release_clients (suc fuel) heap (some a) = do
  link ← heap a
  release_clients fuel (λ b. if a == b then none else heap b) link.next

unfoldable pub stop_server : ℕ → Server → Option Server
unfolding close_clients release_clients
stop_server fuel server = do
  server' ← close_clients fuel server server.clients
  heap ← release_clients fuel server'.heap server'.free_clients
  some (record server' { heap = heap })

close_clients_one :
    (fuel a : ℕ) (server server' : Server) (link : Link)
    → server_close_client server a ≡ some server'
    → server'.heap a ≡ some link
    → link.next ≡ none
    → close_clients (suc (suc fuel)) server (some a) ≡ some server'
unfolding close_clients
close_clients_one fuel a server server' link runs at last = rw (runs, at, last) refl

release_clients-none :
    (fuel : ℕ) (heap : Heap) (cur : Option ℕ)
    → cur ≡ none
    → release_clients (suc fuel) heap cur ≡ some heap
unfolding release_clients
release_clients-none fuel heap cur e = rw e refl

-- When the links are sound and a client is the first, two rounds of fuel are enough for
-- `stop_server`: it closes that client, and the socket of every other client stays open.
pub stop_server_first :
    {server : Server} (r : IsLinked server) (a fuel : ℕ)
    → server.clients ≡ some a
    → (server' : Server) × (stop_server (suc (suc fuel)) server ≡ some server')
      × (socket_at server'.heap a ≡ some 0)
      × ((b : ℕ) → a ≢ b → socket_at server'.heap b ≡ socket_at server.heap b)
unfolding stop_server
stop_server_first {server} r a fuel first =
    let (link, at) = r.head a first in
    let (server', runs, linked, _, closed, same) = server_close_client-IsLinked r a link at in
    let closes : close_clients (suc (suc fuel)) server server.clients ≡ some server' =
      ap (close_clients (suc (suc fuel)) server) first
      ∙ close_clients_one fuel a server server' _ runs closed refl in
    let releases =
      release_clients-none (suc fuel) server'.heap server'.free_clients linked.unused in
    (server', rw (closes, releases) refl, rw (socket_at, closed) refl, same)
