-- ===== src/EpollServer/Events.antt =====
-- The events of the epoll server keep it well formed.
use c_async_await.Base.{
  ℕ, ◌+◌, ◌-◌, ◌%◌, ◌^◌, ◌≤◌, ◌≡◌, ◌≢◌, refl, ◌∙◌, Bool, true, false, Option, none, some, List, ◌∷◌,
  ◌==◌, if◌then◌else◌, mem, arith, Bool-cases, inl, inr, int_max,
}
use c_async_await.Clients.Links.{socket_at}
use c_async_await.Clients.Keep.{server_new_client-IsLinked, server_close_client-IsLinked}
use c_async_await.Clients.{Link}
use c_async_await.Str.{string_init}
use c_async_await.Epoll.{Client}
use c_async_await.EpollServer.{Server, on_close, add_client, new_client, write}
use c_async_await.EpollServer.Invariant.{
  IsServer, without, mem-without, length-without, IsDistinct-without,
}

-- What an event leaves: the server is well formed, the socket that listens is the same, every
-- other client that was watched still is, and the count grew by one at most.
pub record Served (s s' : Server) (d a : ℕ) : Type 0 where
  pub cs : List ℕ
  pub missed : ℕ
  pub sound : IsServer s' d cs missed
  pub same_socket : s'.accept_socket ≡ s.accept_socket
  pub others : (b : ℕ) → a ≢ b → s.watched b ≡ true → s'.watched b ≡ true
  pub few : s'.current_client_cnt ≤ s.current_client_cnt + 1

-- A client that has a socket has links.
pub socket-some :
    (heap : ℕ → Option Link) (a k : ℕ)
    → socket_at heap a ≡ some k
    → (link : Link) × (heap a ≡ some link) × (link.socket ≡ k)
socket-some heap a k e = go (heap a) refl
  where
    go : (o : Option Link) → heap a ≡ o → (link : Link) × (heap a ≡ some link) × (link.socket ≡ k)
    go none q = absurd (ground (arith, e))
    go (some link) q = (link, q, ground (arith, e))

module _ {s : Server} {d : ℕ} {cs : List ℕ} {missed : ℕ} (r : IsServer s d cs missed) where
  -- A client with a socket is not at the next address.
  not_fresh : (b k : ℕ) → socket_at s.links.heap b ≡ some k → s.links.fresh ≢ b
  not_fresh b k q i =
      let (link, at, _) = socket-some s.links.heap b k q in
      absurd (ground (arith, r.linked.links.below b))

  fresh-mem : mem s.links.fresh (d ∷ cs) ≡ false
  fresh-mem = elim (Bool-cases (mem s.links.fresh (d ∷ cs))) [
    | inl m ↦ elim (Bool-cases (s.links.fresh == d)) [
      | inl q ↦ absurd (not_fresh d s.accept_socket r.listens (ground arith))
      | inr q ↦
          let ((k, at, _, _), _) = r.opened s.links.fresh (ground arith) in
          absurd (not_fresh s.links.fresh k at refl)
    ]
    | inr m ↦ m
  ]

  -- The count grows, and nobody comes.
  pub missed-Served :
      (a n : ℕ) → n ≡ s.current_client_cnt + 1 → Served s (record s { current_client_cnt = n }) d a
  missed-Served a n grown = record {
    cs = cs;
    missed = missed + 1;
    sound = record {
      linked = r.linked;
      listens = r.listens;
      distinct = r.distinct;
      opened = r.opened;
      watch = r.watch;
      counted = omega (arith, grown, r.counted);
    };
    same_socket = refl;
    others = λ b ne q. q;
    few = omega (arith, grown);
  }

  -- The count grows, and a client comes.
  pub add_client-Served :
      (a k n : ℕ) (added : Bool)
      → k ≢ 0
      → k ≢ s.accept_socket
      → n ≡ s.current_client_cnt + 1
      → (s' : Server) × (add_client (record s { current_client_cnt = n }) added k ≡ some s')
        × Served s s' d a
  add_client-Served a k n added nz ne grown =
      let (links, runs, linked, at, same) = server_new_client-IsLinked r.linked k in
      let b = s.links.fresh in
      (
        record s {
          links = links;
          states = write b (some new_client) s.states;
          watched = if added then write b true s.watched else s.watched;
          current_client_cnt = n;
        },
        rw runs refl,
        record {
          cs = b ∷ cs;
          missed = missed;
          sound = record {
            linked = linked;
            listens = same d (not_fresh d s.accept_socket r.listens) ∙ r.listens;
            distinct = (ground (arith, fresh-mem), r.distinct);
            opened = λ x m. elim (Bool-cases (b == x)) [
              | inl q ↦
                  let here : b ≡ x = ground arith in
                  rw (← here) ((k, at, nz, ne), (new_client, ground arith))
              | inr q ↦
                  let ((j, at_x, ok, ok'), (c, known)) = r.opened x (ground arith) in
                  ((j, same x (λ i. ground arith) ∙ at_x, ok, ok'), (c, ground arith))
            ];
            watch = λ x m. elim (Bool-cases (b == x)) [
              | inl q ↦ ground arith
              | inr q ↦ let known = r.watch x (ground arith) in ground arith
            ];
            counted = omega (arith, grown, r.counted);
          };
          same_socket = refl;
          others = λ x i q. ground arith;
          few = omega (arith, grown);
        },
      )

  -- A client is closed.
  pub on_close-Served :
      (a : ℕ) (c : Client)
      → mem a cs ≡ true
      → a ≢ d
      → s.current_client_cnt ≤ int_max
      → (s' : Server) × (on_close s a c ≡ some s') × Served s s' d a
  unfolding on_close
  on_close-Served a c m nd small =
      let ((k, at_a, _, _), _) = r.opened a m in
      let (link, at, _) = socket-some s.links.heap a k at_a in
      let (links, runs, linked, _, _, same) = server_close_client-IsLinked r.linked a link at in
      let len = length-without a cs m in
      let left = λ (b : ℕ). mem-without a b cs r.distinct in
      (
        record s {
          links = links;
          states = write a (some (record c { msg = string_init })) s.states;
          watched = write a false s.watched;
          current_client_cnt = (s.current_client_cnt + (2 ^ 32 - 1)) % 2 ^ 32;
        },
        rw runs (ground arith),
        record {
          cs = without a cs;
          missed = missed;
          sound = record {
            linked = linked;
            listens = same d nd ∙ r.listens;
            distinct = IsDistinct-without a cs r.distinct;
            opened = λ x q.
                let ne : a ≢ x = λ i. absurd (ground (arith, left x)) in
                let ((j, at_x, ok, ok'), (c', known)) = r.opened x (ground (arith, left x)) in
                ((j, same x ne ∙ at_x, ok, ok'), (c', ground arith));
            watch = λ x q. let known = r.watch x (ground arith) in ground (arith, left x);
            counted = omega (arith, len, r.counted);
          };
          same_socket = refl;
          others = λ x i q. ground arith;
          few = omega (arith, len, r.counted);
        },
      )

  -- A client has a new state, and the counter of bytes any value.
  pub updated-IsServer :
      (a n : ℕ) (c : Client)
      → IsServer (record s { bytes_processed = n; states = write a (some c) s.states }) d cs missed
  updated-IsServer a n c = record {
    linked = r.linked;
    listens = r.listens;
    distinct = r.distinct;
    opened = λ x m.
        let (at, (c', known)) = r.opened x m in
        elim (Bool-cases (a == x)) [
          | inl q ↦ (at, (c, ground arith))
          | inr q ↦ (at, (c', ground arith))
        ];
    watch = r.watch;
    counted = r.counted;
  }

  pub counter-IsServer : (n : ℕ) → IsServer (record s { bytes_processed = n }) d cs missed
  counter-IsServer n = record {
    linked = r.linked;
    listens = r.listens;
    distinct = r.distinct;
    opened = r.opened;
    watch = r.watch;
    counted = r.counted;
  }
