-- ===== src/EpollServer/Batch.antt =====
-- A round of events keeps the epoll server well formed, and its assertions hold.
use c_async_await.Base.{
  ℕ, ◌+◌, ◌%◌, ◌^◌, ◌<◌, ◌≤◌, ◌≡◌, ◌≢◌, refl, ◌∙◌, true, false, Option, none, some, List, [], ◌∷◌,
  ◌==◌, ◌||◌, length, mem, IsDistinct, arith, Bool-cases, inl, inr, int_max,
}
use c_async_await.Epoll.{Client, Update, keep, close}
use c_async_await.Clients.{Link}
use c_async_await.EpollServer.{
  Server, Event, update_of, on_event, on_events, on_accept, when_updated, write, on_socket,
}
use c_async_await.EpollServer.Invariant.{IsServer, IsFresh, CanUpdate}
use c_async_await.EpollServer.Events.{
  Served, socket-some, missed-Served, add_client-Served, on_close-Served, updated-IsServer,
  counter-IsServer,
}

-- The states and the counter of bytes are no part of what is served.
Served-from :
    (s : Server) (n : ℕ) (f : ℕ → Option Client) (s' : Server) (d a : ℕ)
    → Served (record s { bytes_processed = n; states = f }) s' d a
    → Served s s' d a
Served-from s n f s' d a v = record {
  cs = v.cs;
  missed = v.missed;
  sound = v.sound;
  same_socket = v.same_socket;
  others = v.others;
  few = v.few;
}

on_event-eq_accept :
    (s : Server) (e : Event) (link : Link)
    → s.links.heap e.client ≡ some link
    → link.socket == s.accept_socket ≡ true
    → on_event s e ≡ on_accept s e
unfolding on_event
on_event-eq_accept s e link at same =
    let goes : on_event s e ≡ on_socket s e link.socket = rw at refl in
    goes ∙ rw (on_socket, same) refl

on_event-eq_update :
    (s : Server) (e : Event) (link : Link) (c : Client) (u : Update)
    → s.links.heap e.client ≡ some link
    → link.socket == s.accept_socket ≡ false
    → link.socket == 0 ≡ false
    → s.states e.client ≡ some c
    → update_of s e c ≡ some u
    → on_event s e ≡ when_updated s e u
unfolding on_event
on_event-eq_update s e link c u at other busy known updates =
    let goes : on_event s e ≡ on_socket s e link.socket = rw at refl in
    goes ∙ rw (on_socket, other, busy, known, updates) refl

module _ {s : Server} {d : ℕ} {cs : List ℕ} {missed : ℕ} (r : IsServer s d cs missed)
    (e : Event) where
  on_accept-Served :
      s.current_client_cnt < int_max
      → IsFresh s e
      → (s' : Server) × (on_accept s e ≡ some s') × Served s s' d e.client
  unfolding on_accept
  on_accept-Served lt fresh = go e.accepted refl
    where
      n : ℕ
      n = (s.current_client_cnt + 1) % 2 ^ 32

      grown : n ≡ s.current_client_cnt + 1
      grown = omega (arith, lt)

      go :
          (o : Option ℕ)
          → e.accepted ≡ o
          → (s' : Server) × (on_accept s e ≡ some s') × Served s s' d e.client
      go none q = (
        record s { current_client_cnt = n },
        ground (arith, lt),
        missed-Served r e.client n grown,
      )
      go (some k) q =
          let (nz, ne) = fresh k q in
          let (s', runs, served) = add_client-Served r e.client k n e.added nz ne grown in
          (s', ground (arith, lt, runs), served)

  when_updated-Served :
      (u : Update)
      → mem e.client cs ≡ true
      → e.client ≢ d
      → s.current_client_cnt ≤ int_max
      → (s' : Server) × (when_updated s e u ≡ some s') × Served s s' d e.client
  when_updated-Served (close c) m nd small =
      let n = c.bytes_processed in
      let (s', runs, served) = on_close-Served (counter-IsServer r n) e.client c m nd small in
      (s', runs, Served-from s n s.states s' d e.client served)
  when_updated-Served (keep c) m nd small =
      let r₁ = updated-IsServer r e.client c.bytes_processed c in
      let f = write e.client (some c) s.states in
      elim (Bool-cases (e.hup || e.err)) [
        | inl q ↦
            let (s', runs, served) = on_close-Served r₁ e.client c m nd small in
            (s', rw (when_updated, q) runs, Served-from s c.bytes_processed f s' d e.client served)
        | inr q ↦ (
          record s { bytes_processed = c.bytes_processed; states = f },
          rw (when_updated, q) refl,
          record {
            cs = cs;
            missed = missed;
            sound = r₁;
            same_socket = refl;
            others = λ x i k. k;
            few = omega arith;
          },
        )
      ]

  -- In a well formed server, an event of a watched client succeeds and keeps it well formed.
  pub on_event-Served :
      s.watched e.client ≡ true
      → s.current_client_cnt < int_max
      → IsFresh s e
      → CanUpdate s e
      → (s' : Server) × (on_event s e ≡ some s') × Served s s' d e.client
  on_event-Served watched lt fresh can =
      let m = r.watch e.client watched in
      elim (Bool-cases (e.client == d)) [
        | inl q ↦
            let here : d ≡ e.client = ground arith in
            let (link, at, sock) = socket-some s.links.heap d s.accept_socket r.listens in
            let (s', runs, served) = on_accept-Served lt fresh in
            let at' : s.links.heap e.client ≡ some link = rw (← here) at in
            (s', on_event-eq_accept s e link at' (ground arith) ∙ runs, served)
        | inr q ↦
            let ((k, at_k, nz, ne), (c, known)) = r.opened e.client (ground arith) in
            let (link, at, sock) = socket-some s.links.heap e.client k at_k in
            let (u, updates) = can c (λ i. ground (arith, ne)) known in
            let (s', runs, served) =
              when_updated-Served u (ground arith) (λ i. ground arith) (omega (arith, lt)) in
            (
              s',
              on_event-eq_update s e link c u at (ground arith) (ground arith) known updates ∙ runs,
              served,
            )
      ]

abbrev pub clients_of : List Event → List ℕ
clients_of [] = []
clients_of (e ∷ es) = e.client ∷ clients_of es

-- What the kernel and the clients grant to a list of events, one after the other.
abbrev pub CanServe : Server → List Event → Type 0
CanServe s [] = Unit
CanServe s (e ∷ es) =
    IsFresh s e × CanUpdate s e × ((s' : Server) → on_event s e ≡ some s' → CanServe s' es)

-- In a well formed server, a list of events of different watched clients succeeds and keeps it well
-- formed, when the count cannot overflow, `accept` returns neither 0 nor the socket that listens,
-- and the update that each event leads to passes its own assertions: no event meets a client that
-- is closed, the links hold, and the count is at least the number of open clients.
pub on_events-IsServer :
    (es : List Event) {s : Server} {d : ℕ} {cs : List ℕ} {missed : ℕ}
    → IsServer s d cs missed
    → IsDistinct (clients_of es)
    → ((a : ℕ) → mem a (clients_of es) ≡ true → s.watched a ≡ true)
    → s.current_client_cnt + length es ≤ int_max
    → CanServe s es
    → (s' : Server) × (on_events s es ≡ some s')
      × ((cs' : List ℕ) × (missed' : ℕ) × IsServer s' d cs' missed')
unfolding on_events
on_events-IsServer [] {s} {cs = cs} {missed = missed} r apart watched few can =
    (s, refl, (cs, missed, r))
on_events-IsServer (e ∷ es) {s} r apart watched few (fresh, update, rest) =
    let (s₁, runs, served) =
      on_event-Served r e (watched e.client (ground arith)) (omega (arith, few)) fresh update in
    let (s', runs', sound) =
      on_events-IsServer es served.sound apart.1
        (λ a m. served.others a (λ i. absurd (ground (arith, apart.0))) (watched a (ground arith)))
        (omega (arith, few, served.few)) (rest s₁ runs) in
    (s', rw (runs) runs', sound)
