-- ===== src/Clients/Close.antt =====
-- A client is closed: one in the middle leaves the list, the first one takes the list with it.
use c_async_await.Base.{
  ℕ, ◌≡◌, ◌≢◌, refl, ◌∙◌, sym, true, false, Option, none, some, List, [], ◌∷◌, ◌++◌, ◌==◌, mem,
  IsDistinct, mem-append, arith, Bool-cases, inl, inr,
}
use mathlib.Core.Path.{subst}
use c_async_await.Clients.{Link, Heap, Server, put_link, set_prev, server_close_client}
use c_async_await.Clients.Chain.{Chain, Chain-same, ne-mem, put_ne, put_self}

-- The client behind the one that is closed gets the one before it as `prev`.
set_prev-Chain :
    (p p' cur : Option ℕ) (heap : Heap) (zs : List ℕ)
    → IsDistinct zs
    → Chain heap p cur zs
    → (heap' : Heap) × (set_prev cur p' heap ≡ some heap')
      × Chain heap' p' cur zs
      × ((x : ℕ) → mem x zs ≡ false → heap' x ≡ heap x)
set_prev-Chain p p' cur heap [] d c = (heap, rw c refl, c, λ x m. refl)
set_prev-Chain p p' cur heap (z ∷ zs) d (link, e, at, back, rest) =
    let link' : Link = record link { prev = p' } in
    (
      put_link z link' heap,
      rw (e, at) refl,
      (
        link',
        e,
        put_self z link' heap,
        refl,
        Chain-same heap (put_link z link' heap) (some z) link.next zs
            (λ b m. put_ne z b link' heap (ne-mem b z zs m d.0)) rest,
      ),
      λ x m. put_ne z x link' heap (λ e'. ground (arith, e')),
    )

-- A client in the list and the one before it.
record Located (heap : Heap) (b a : ℕ) (zs : List ℕ) : Type 0 where
  before : Link
  link : Link
  at_before : heap b ≡ some before
  at : heap a ≡ some link
  back : link.prev ≡ some b
  rest : Chain heap (some a) link.next zs

located :
    (heap : Heap) (p cur : Option ℕ) (ys : List ℕ) {b a : ℕ} {zs : List ℕ}
    → Chain heap p cur (ys ++ b ∷ a ∷ zs)
    → Located heap b a zs
located heap p cur [] (before, _, at_before, _, (link, _, at, back, rest)) = record {
  before = before;
  link = link;
  at_before = at_before;
  at = at;
  back = back;
  rest = rest;
}
located heap p cur (y ∷ ys) {b} (link, _, _, _, rest) = located heap (some y) link.next ys rest

same_prev :
    (heap : Heap) (b : ℕ) (n link : Link)
    → heap b ≡ some n
    → heap b ≡ some link
    → n.prev ≡ link.prev
same_prev heap b n link e e' = ground (arith, e, e')

unlinked :
    (heap heap' : Heap) (p cur : Option ℕ) (ys : List ℕ) (b a : ℕ) (zs : List ℕ) (n : Link)
    (next : Option ℕ)
    → Chain heap p cur (ys ++ b ∷ a ∷ zs)
    → heap b ≡ some n
    → heap' b ≡ some (record n { next = next })
    → Chain heap' (some b) next zs
    → ((x : ℕ) → mem x ys ≡ true → heap' x ≡ heap x)
    → Chain heap' p cur (ys ++ b ∷ zs)
unlinked heap heap' p cur [] b a zs n next (link, e, at, back, _) was now rest same =
    (record n { next = next }, e, now, same_prev heap b n link was at ∙ back, rest)
unlinked heap heap' p cur (y ∷ ys) b a zs n next (link, e, at, back, rest₀) was now rest same = (
  link,
  e,
  same y (ground arith) ∙ at,
  back,
  unlinked heap heap' (some y) link.next ys b a zs n next rest₀ was now rest
      (λ x m. same x (ground arith)),
)

-- Who is where in a list without repetitions.
record Apart (ys : List ℕ) (b a : ℕ) (zs : List ℕ) : Type 0 where
  rest : IsDistinct zs
  no_b : mem b zs ≡ false
  no_a : mem a zs ≡ false
  differ : a ≢ b
  early : (x : ℕ) → mem x ys ≡ true → (x ≢ a) × (x ≢ b) × (mem x zs ≡ false)

not_late :
    (y b a : ℕ) (zs : List ℕ) → mem y (b ∷ a ∷ zs) ≡ false → (y ≢ a) × (y ≢ b) × (mem y zs ≡ false)
not_late y b a zs m = ((λ e. ground (arith, e)), (λ e. ground (arith, e)), ground arith)

distinct-Apart :
    (ys : List ℕ) (b a : ℕ) (zs : List ℕ) → IsDistinct (ys ++ b ∷ a ∷ zs) → Apart ys b a zs
distinct-Apart [] b a zs d = record {
  rest = d.1.1;
  no_b = ground arith;
  no_a = d.1.0;
  differ = λ e. ground (arith, e);
  early = λ x m. absurd (ground arith);
}
distinct-Apart (y ∷ ys) b a zs d =
    let r = distinct-Apart ys b a zs d.1 in
    let new = mem-append y ys (b ∷ a ∷ zs) in
    record {
      rest = r.rest;
      no_b = r.no_b;
      no_a = r.no_a;
      differ = r.differ;
      early = λ x m. elim (Bool-cases (x == y)) [
        | inl same ↦
            let e : y ≡ x = ground arith in
            subst (λ k. (k ≢ a) × (k ≢ b) × (mem k zs ≡ false)) e
              (not_late y b a zs (ground (arith, new, d.0)))
        | inr other ↦ r.early x (ground arith)
      ];
    }

-- When the clients form a doubly linked list without repetitions and the client to close is not the
-- first, `server_close_client` succeeds, the other clients form the list in the same order, and the
-- one that was closed has no socket and the free list behind it.
pub server_close_client-Chain :
    (server : Server) (ys : List ℕ) (b a : ℕ) (zs : List ℕ)
    → Chain server.heap none server.clients (ys ++ b ∷ a ∷ zs)
    → IsDistinct (ys ++ b ∷ a ∷ zs)
    → (server' : Server) × (server_close_client server a ≡ some server')
      × Chain server'.heap none server'.clients (ys ++ b ∷ zs)
      × (server'.heap a ≡ some (record { prev = none; next = server.free_clients; socket = 0 }))
unfolding server_close_client
server_close_client-Chain server ys b a zs c d =
    let l = located server.heap none server.clients ys c in
    let s = distinct-Apart ys b a zs d in
    let before' : Link = record l.before { next = l.link.next } in
    let closed : Link = record { prev = none; next = server.free_clients; socket = 0 } in
    let heap₁ = put_link b before' server.heap in
    let rest₁ =
      Chain-same server.heap heap₁ (some a) l.link.next zs
        (λ x m. put_ne b x before' server.heap (ne-mem x b zs m s.no_b)) l.rest in
    let (heap₂, relinked, rest₂, same₂) =
      set_prev-Chain (some a) (some b) l.link.next heap₁ zs s.rest rest₁ in
    let heap₃ = put_link a closed heap₂ in
    let rest₃ =
      Chain-same heap₂ heap₃ (some b) l.link.next zs
        (λ x m. put_ne a x closed heap₂ (ne-mem x a zs m s.no_a)) rest₂ in
    let now : heap₃ b ≡ some before' =
      put_ne a b closed heap₂ s.differ ∙ (same₂ b s.no_b ∙ put_self b before' server.heap) in
    let early : (x : ℕ) → mem x ys ≡ true → heap₃ x ≡ server.heap x = λ x m.
      let (na, nb, out) = s.early x m in
      put_ne a x closed heap₂ (λ e. na (sym e))
      ∙ (same₂ x out ∙ put_ne b x before' server.heap (λ e. nb (sym e))) in
    (
      record server { heap = heap₃ },
      rw (l.at, l.back, l.at_before, relinked) refl,
      unlinked server.heap heap₃ none server.clients ys b a zs l.before l.link.next c l.at_before
          now rest₃ early,
      put_self a closed heap₂,
    )

-- When the first client of a doubly linked list without repetitions is closed and the free list is
-- empty, `server_close_client` succeeds and the list of the server is the closed client alone.
pub server_close_client_first :
    (server : Server) (a : ℕ) (xs : List ℕ)
    → Chain server.heap none server.clients (a ∷ xs)
    → IsDistinct (a ∷ xs)
    → server.free_clients ≡ none
    → (server' : Server) × (server_close_client server a ≡ some server')
      × Chain server'.heap none server'.clients (a ∷ [])
unfolding server_close_client
server_close_client_first server a xs (link, e, at, back, rest) d unused =
    let closed : Link = record { prev = none; next = server.free_clients; socket = 0 } in
    let (heap₂, relinked, _, _) = set_prev-Chain (some a) none link.next server.heap xs d.1 rest in
    (
      record server { heap = put_link a closed heap₂ },
      rw (at, back, relinked) refl,
      (closed, e, put_self a closed heap₂, refl, unused),
    )
