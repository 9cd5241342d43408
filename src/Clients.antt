-- ===== src/Clients.antt =====
-- The lists of clients of examples/echo_epoll.c: `server_new_client` and `server_close_client` on a
-- heap of clients, of which the links and the socket are kept. A pointer is an address, or `none`.
pub mod Chain
pub mod Close
pub mod Links
pub mod Keep
pub mod Stop
use c_async_await.Base.{
  ℕ, ◌+◌, Bool, true, false, Option, none, some, ◌==◌, if◌then◌else◌, ◌>>=◌, ◌>>◌, guard,
}

pub record Link : Type 0 where
  pub prev : Option ℕ
  pub next : Option ℕ
  pub socket : ℕ

abbrev pub Heap : Type 0
Heap = ℕ → Option Link

-- `heap` holds what `calloc` made; it hands out the address `fresh` next.
pub record Server : Type 0 where
  pub heap : Heap
  pub clients : Option ℕ
  pub free_clients : Option ℕ
  pub fresh : ℕ

abbrev pub put_link : ℕ → Link → Heap → Heap
put_link a link heap = λ b. if a == b then some link else heap b

abbrev pub is_null : Option ℕ → Bool
is_null none = true
is_null (some a) = false

-- The first of the free list, or a new one.
abbrev pub take_client : Server → Option (ℕ × Server)
take_client server = elim server.free_clients [
  | some a ↦ do
    link ← server.heap a
    guard (is_null link.prev)
    some (a, record server { free_clients = link.next })
  | none ↦ some (server.fresh, record server { fresh = server.fresh + 1 })
]

-- `if (next) { assert(next->prev == NULL); next->prev = client; }`
abbrev pub link_back : Option ℕ → ℕ → Heap → Option Heap
link_back none a heap = some heap
link_back (some b) a heap = do
  link ← heap b
  guard (is_null link.prev)
  some (put_link b (record link { prev = some a }) heap)

unfoldable pub server_new_client : Server → ℕ → Option (ℕ × Server)
server_new_client server socket = do
  (a, server₁) ← take_client server
  let next = server₁.clients
  heap ←
      link_back next a
        (put_link a (record { prev = none; next = next; socket = socket }) server₁.heap)
  some (a, record server₁ { heap = heap; clients = some a })

-- `if (prev) prev->next = next;` and `if (next) next->prev = prev;`
abbrev pub set_next : Option ℕ → Option ℕ → Heap → Option Heap
set_next none next heap = some heap
set_next (some p) next heap = do link ← heap p; some (put_link p (record link { next = next }) heap)

abbrev pub set_prev : Option ℕ → Option ℕ → Heap → Option Heap
set_prev none prev heap = some heap
set_prev (some n) prev heap = do link ← heap n; some (put_link n (record link { prev = prev }) heap)

unfoldable pub server_close_client : Server → ℕ → Option Server
server_close_client server a = do
  link ← server.heap a
  heap₁ ← set_next link.prev link.next server.heap
  heap₂ ← set_prev link.next link.prev heap₁
  some (record server {
    heap = put_link a (record { prev = none; next = server.free_clients; socket = 0 }) heap₂;
  })
