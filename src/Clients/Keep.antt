-- ===== src/Clients/Keep.antt =====
-- `server_new_client` and `server_close_client` keep the links sound, in whichever order they come.
use c_async_await.Base.{ℕ, ◌+◌, ◌≡◌, ◌≢◌, refl, sym, ◌∙◌, ap, Option, none, some, arith}
use c_async_await.Clients.{
  Link, Heap, Server, put_link, set_next, set_prev, link_back, server_new_client,
  server_close_client,
}
use c_async_await.Clients.Chain.{put_self, put_ne}
use c_async_await.Clients.Links.{
  socket_at, HasLinks, below_fresh, put_links, made_links, put_some, socket-put_self, socket-put_ne,
  socket-put_same, put_head,
}

link_back-some :
    (d a : ℕ) (heap : Heap) (link : Link)
    → heap d ≡ some link
    → link.prev ≡ none
    → link_back (some d) a heap ≡ some (put_link d (record link { prev = some a }) heap)
link_back-some d a heap link at front = rw (at, front) refl

-- The server's list and its clients.
pub record IsLinked (server : Server) : Type 0 where
  pub unused : server.free_clients ≡ none
  pub links : HasLinks server.heap server.clients server.fresh
  pub head : (d : ℕ) → server.clients ≡ some d → (l : Link) × (server.heap d ≡ some l)

-- What a write to a link keeps.
record Relinks (heap heap' : Heap) (head : Option ℕ) (fresh : ℕ) : Type 0 where
  links : HasLinks heap' head fresh
  kept : (b : ℕ) (m : Link) → heap b ≡ some m → (m' : Link) × (heap' b ≡ some m')
  sockets : (b : ℕ) → socket_at heap' b ≡ socket_at heap b

relinked :
    {heap : Heap} {head : Option ℕ} {fresh : ℕ} (a : ℕ) (link old : Link)
    → HasLinks heap head fresh
    → heap a ≡ some old
    → link.socket ≡ old.socket
    → (head ≡ some a → link.prev ≡ none)
    → ((n : ℕ) → link.next ≡ some n → (head ≢ some n) × ((m : Link) × (heap n ≡ some m)))
    → ((p : ℕ) → link.prev ≡ some p → (m : Link) × (heap p ≡ some m))
    → Relinks heap (put_link a link heap) head fresh
relinked {heap} a link old r at same first next prev = record {
  links = put_links a link r (below_fresh r a old at) first next prev;
  kept = λ b m e. put_some a b link heap m e;
  sockets = λ b. socket-put_same a b link old heap at same;
}

set_next-Relinks :
    {heap : Heap} {head : Option ℕ} {fresh : ℕ} (p next : Option ℕ)
    → HasLinks heap head fresh
    → ((b : ℕ) → p ≡ some b → (m : Link) × (heap b ≡ some m))
    → ((n : ℕ) → next ≡ some n → (head ≢ some n) × ((m : Link) × (heap n ≡ some m)))
    → (heap' : Heap) × (set_next p next heap ≡ some heap') × Relinks heap heap' head fresh
set_next-Relinks {heap} none next r there after =
    (heap, refl, record { links = r; kept = λ b m e. (m, e); sockets = λ b. refl })
set_next-Relinks {heap} (some p) next r there after =
    let (link, at) = there p refl in
    let link' : Link = record link { next = next } in
    (
      put_link p link' heap,
      rw at refl,
      relinked p link' link r at refl (λ i. r.front p link i at) after
          (λ b q. r.prevs p b link at q),
    )

set_prev-Relinks :
    {heap : Heap} {head : Option ℕ} {fresh : ℕ} (n prev : Option ℕ)
    → HasLinks heap head fresh
    → ((b : ℕ) → n ≡ some b → (head ≢ some b) × ((m : Link) × (heap b ≡ some m)))
    → ((p : ℕ) → prev ≡ some p → (m : Link) × (heap p ≡ some m))
    → (heap' : Heap) × (set_prev n prev heap ≡ some heap') × Relinks heap heap' head fresh
set_prev-Relinks {heap} none prev r there before =
    (heap, refl, record { links = r; kept = λ b m e. (m, e); sockets = λ b. refl })
set_prev-Relinks {heap} (some n) prev r there before =
    let (other, (link, at)) = there n refl in
    let link' : Link = record link { prev = prev } in
    (
      put_link n link' heap,
      rw at refl,
      relinked n link' link r at refl (λ i. absurd (other i)) (λ b q. r.nexts n b link at q) before,
    )

module _ {server : Server} (r : IsLinked server) where
  -- Whatever clients came and went, `server_new_client` succeeds: the new client is at a new
  -- address and has the socket, the sockets of the others do not change, and the links are sound.
  pub server_new_client-IsLinked :
      (socket : ℕ)
      → (server' : Server) × (server_new_client server socket ≡ some (server.fresh, server'))
        × IsLinked server'
        × (socket_at server'.heap server.fresh ≡ some socket)
        × ((b : ℕ) → server.fresh ≢ b → socket_at server'.heap b ≡ socket_at server.heap b)
  unfolding server_new_client
  server_new_client-IsLinked socket = go server.clients refl
    where
      go :
          (o : Option ℕ)
          → server.clients ≡ o
          → (server' : Server) × (server_new_client server socket ≡ some (server.fresh, server'))
            × IsLinked server'
            × (socket_at server'.heap server.fresh ≡ some socket)
            × ((b : ℕ) → server.fresh ≢ b → socket_at server'.heap b ≡ socket_at server.heap b)
      go none e =
          let a = server.fresh in
          let link : Link = record { prev = none; next = server.clients; socket = socket } in
          (
            record server { heap = put_link a link server.heap; clients = some a; fresh = a + 1 },
            rw (r.unused, e) refl,
            record {
              unused = r.unused;
              links = made_links socket r.links r.head;
              head = λ d q. put_head a d link server.heap q;
            },
            socket-put_self a link server.heap,
            λ b ne. socket-put_ne a b link server.heap ne,
          )
      go (some d) e =
          let a = server.fresh in
          let gone = r.links.below a (omega arith) in
          let (first, at) = r.head d e in
          let link : Link = record { prev = none; next = server.clients; socket = socket } in
          let heap₁ = put_link a link server.heap in
          let made = made_links socket r.links r.head in
          let apart : a ≢ d = λ i. ground arith in
          let first' : Link = record first { prev = some a } in
          let at₁ : heap₁ d ≡ some first = put_ne a d link server.heap apart ∙ at in
          let linked : link_back server.clients a heap₁ ≡ some (put_link d first' heap₁) =
            ap (λ o. link_back o a heap₁) e
            ∙ link_back-some d a heap₁ first at₁ (r.links.front d first e at) in
          (
            record server { heap = put_link d first' heap₁; clients = some a; fresh = a + 1 },
            rw (r.unused, linked) refl,
            record {
              unused = r.unused;
              links =
                  put_links d first' made (below_fresh made d first at₁)
                    (λ i. absurd (ground arith)) (λ n q. made.nexts d n first at₁ q)
                    (λ p q. (link, ground (arith, put_self a link server.heap)));
              head = λ b q.
                  let (l, x) = put_head a b link server.heap q in put_some d b first' heap₁ l x;
            },
            socket-put_ne d a first' heap₁ (λ i. apart (sym i))
                ∙ socket-put_self a link server.heap,
            λ b ne.
                socket-put_same d b first' first heap₁ at₁ refl
                ∙ socket-put_ne a b link server.heap ne,
          )

  -- Whatever clients came and went, `server_close_client` of a client succeeds: it has no socket
  -- then, the sockets of the others do not change, and the links are sound.
  pub server_close_client-IsLinked :
      (a : ℕ) (link : Link)
      → server.heap a ≡ some link
      → (server' : Server) × (server_close_client server a ≡ some server')
        × IsLinked server'
        × (server'.fresh ≡ server.fresh)
        × (server'.heap a ≡ some (record { prev = none; next = none; socket = 0 }))
        × ((b : ℕ) → a ≢ b → socket_at server'.heap b ≡ socket_at server.heap b)
  unfolding server_close_client
  server_close_client-IsLinked a link at =
      let (heap₁, runs₁, r₁) =
        set_next-Relinks link.prev link.next r.links (λ p q. r.links.prevs a p link at q)
          (λ n q. r.links.nexts a n link at q) in
      let (heap₂, runs₂, r₂) =
        set_prev-Relinks link.next link.prev r₁.links
          (λ n q. let (ne, (m, e)) = r.links.nexts a n link at q in (ne, r₁.kept n m e))
          (λ p q. let (m, e) = r.links.prevs a p link at q in r₁.kept p m e) in
      let closed : Link = record { prev = none; next = server.free_clients; socket = 0 } in
      (
        record server { heap = put_link a closed heap₂ },
        rw (at, runs₁, runs₂) refl,
        record {
          unused = r.unused;
          links =
              put_links a closed r₂.links (below_fresh r.links a link at) (λ i. refl)
                (λ n q. absurd (ground (arith, r.unused))) (λ p q. absurd (ground arith));
          head = λ d q.
              let (l, e) = r.head d q in
              let (l₁, e₁) = r₁.kept d l e in
              let (l₂, e₂) = r₂.kept d l₁ e₁ in put_some a d closed heap₂ l₂ e₂;
        },
        refl,
        put_self a closed heap₂ ∙ rw r.unused refl,
        λ b ne. socket-put_ne a b closed heap₂ ne ∙ (r₂.sockets b ∙ r₁.sockets b),
      )
