-- ===== src/Clients/Chain.antt =====
-- The clients in a doubly linked list, and a new one.
use c_async_await.Base.{
  ℕ, ◌+◌, ◌≡◌, ◌≢◌, refl, ◌∙◌, ap, true, false, Option, none, some, List, [], ◌∷◌, mem, IsDistinct,
  arith,
}
use c_async_await.Clients.{Link, Heap, Server, put_link, link_back, server_new_client}

-- From `cur` on, with `prev` before it, the list has these clients.
abbrev pub Chain : Heap → Option ℕ → Option ℕ → List ℕ → Type 0
Chain heap prev cur [] = cur ≡ none
Chain heap prev cur (a ∷ xs) =
    (link : Link) × (cur ≡ some a)
    × (heap a ≡ some link)
    × (link.prev ≡ prev)
    × Chain heap (some a) link.next xs

-- Only the clients in the list matter.
pub Chain-same :
    (heap heap' : Heap) (prev cur : Option ℕ) (xs : List ℕ)
    → ((a : ℕ) → mem a xs ≡ true → heap' a ≡ heap a)
    → Chain heap prev cur xs
    → Chain heap' prev cur xs
Chain-same heap heap' prev cur [] same c = c
Chain-same heap heap' prev cur (a ∷ xs) same (link, e, at, back, rest) = (
  link,
  e,
  same a (ground arith) ∙ at,
  back,
  Chain-same heap heap' (some a) link.next xs (λ b m. same b (ground arith)) rest,
)

pub ne-mem : (a b : ℕ) (xs : List ℕ) → mem a xs ≡ true → mem b xs ≡ false → b ≢ a
ne-mem a b xs m n e = ground (arith, ap (λ k. mem k xs) e)

pub put_ne : (a b : ℕ) (link : Link) (heap : Heap) → a ≢ b → put_link a link heap b ≡ heap b
put_ne a b link heap ne = ground arith

pub put_self : (a : ℕ) (link : Link) (heap : Heap) → put_link a link heap a ≡ some link
put_self a link heap = ground arith

-- The pointer back to a new client.
link_back-Chain :
    (a : ℕ) (cur : Option ℕ) (heap : Heap) (xs : List ℕ)
    → IsDistinct xs
    → mem a xs ≡ false
    → Chain heap none cur xs
    → (heap' : Heap) × (link_back cur a heap ≡ some heap')
      × Chain heap' (some a) cur xs
      × (heap' a ≡ heap a)
link_back-Chain a cur heap [] d new c = (heap, rw c refl, c, refl)
link_back-Chain a cur heap (x ∷ xs) d new (link, e, at, back, rest) =
    let heap' = put_link x (record link { prev = some a }) heap in
    (
      heap',
      rw (e, at, back) refl,
      (
        record link { prev = some a },
        e,
        put_self x (record link { prev = some a }) heap,
        refl,
        Chain-same heap heap' (some x) link.next xs
            (λ b m. put_ne x b (record link { prev = some a }) heap (ne-mem b x xs m d.0)) rest,
      ),
      put_ne x a (record link { prev = some a }) heap (λ e'. ground (arith, e')),
    )

pub server_new_client-Chain :
    (server : Server) (socket : ℕ) (xs : List ℕ)
    → server.free_clients ≡ none
    → Chain server.heap none server.clients xs
    → IsDistinct xs
    → mem server.fresh xs ≡ false
    → (server' : Server) × (server_new_client server socket ≡ some (server.fresh, server'))
      × Chain server'.heap none server'.clients (server.fresh ∷ xs)
      × (server'.heap server.fresh
          ≡ some (record { prev = none; next = server.clients; socket = socket }))
unfolding server_new_client
server_new_client-Chain server socket xs unused c d new =
    let a = server.fresh in
    let link : Link = record { prev = none; next = server.clients; socket = socket } in
    let heap = put_link a link server.heap in
    let c₁ =
      Chain-same server.heap heap none server.clients xs
        (λ b m. put_ne a b link server.heap (ne-mem b a xs m new)) c in
    let (heap', linked, c₂, same) = link_back-Chain a server.clients heap xs d new c₁ in
    let at = same ∙ put_self a link server.heap in
    (
      record server { heap = heap'; clients = some a; fresh = a + 1 },
      rw (unused, linked) refl,
      (link, refl, at, refl, c₂),
      at,
    )
