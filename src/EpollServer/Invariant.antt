-- ===== src/EpollServer/Invariant.antt =====
-- What holds between the events of the epoll server.
use c_async_await.Base.{
  ℕ, ◌+◌, ◌≡◌, ◌≢◌, true, false, some, List, [], ◌∷◌, ◌==◌, length, if◌then◌else◌, mem, IsDistinct,
  arith, Bool-cases, inl, inr,
}
use c_async_await.Clients.Links.{socket_at}
use c_async_await.Clients.Keep.{IsLinked}
use c_async_await.Epoll.{Client, Update}
use c_async_await.EpollServer.{Server, Event, update_of}

abbrev pub without : ℕ → List ℕ → List ℕ
without a [] = []
without a (x ∷ xs) = if a == x then xs else x ∷ without a xs

pub mem-without :
    (a b : ℕ) (xs : List ℕ)
    → IsDistinct xs
    → mem b (without a xs) ≡ (if a == b then false else mem b xs)
mem-without a b [] d = ground arith
mem-without a b (x ∷ xs) d = ground (arith, mem-without a b xs d.1, d.0)

pub length-without : (a : ℕ) (xs : List ℕ) → mem a xs ≡ true → length (without a xs) + 1 ≡ length xs
length-without a [] m = absurd (ground arith)
length-without a (x ∷ xs) m = elim (Bool-cases (a == x)) [
  | inl q ↦ ground arith
  | inr q ↦ ground (arith, length-without a xs)
]

pub IsDistinct-without : (a : ℕ) (xs : List ℕ) → IsDistinct xs → IsDistinct (without a xs)
IsDistinct-without a [] d = tt
IsDistinct-without a (x ∷ xs) d = elim (Bool-cases (a == x)) [
  | inl q ↦ rw q d.1
  | inr q ↦ rw q (ground (arith, mem-without a x xs d.1, d.0), IsDistinct-without a xs d.1)
]

-- A client that is served: its socket is open and is not the one that listens, and it has a state.
abbrev pub Open : Server → ℕ → Type 0
Open s a =
    ((k : ℕ) × (socket_at s.links.heap a ≡ some k) × (k ≢ 0) × (k ≢ s.accept_socket))
    × ((c : Client) × (s.states a ≡ some c))

-- `d` is the client with the socket that listens, `cs` the others that are open; `missed` is how
-- often the count grew and no client came.
pub record IsServer (s : Server) (d : ℕ) (cs : List ℕ) (missed : ℕ) : Type 0 where
  pub linked : IsLinked s.links
  pub listens : socket_at s.links.heap d ≡ some s.accept_socket
  pub distinct : IsDistinct cs
  pub opened : (a : ℕ) → mem a cs ≡ true → Open s a
  pub watch : (a : ℕ) → s.watched a ≡ true → mem a (d ∷ cs) ≡ true
  pub counted : s.current_client_cnt ≡ length cs + missed

-- A socket that `accept` returns is neither 0 nor the one that listens.
abbrev pub IsFresh : Server → Event → Type 0
IsFresh s e = (k : ℕ) → e.accepted ≡ some k → (k ≢ 0) × (k ≢ s.accept_socket)

-- The update that the event leads to, if it is not one of the socket that listens, passes its own
-- assertions.
abbrev pub CanUpdate : Server → Event → Type 0
CanUpdate s e =
    (c : Client)
    → socket_at s.links.heap e.client ≢ some s.accept_socket
    → s.states e.client ≡ some c
    → (u : Update) × (update_of s e c ≡ some u)
