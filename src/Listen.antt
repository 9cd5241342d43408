-- ===== src/Listen.antt =====
-- How the echo servers, examples/echo_epoll.c and examples/echo_async.c, come to a socket that
-- listens: both have the same loop over the addresses that `getaddrinfo` returns.
use c_async_await.Base.{
  ℕ, ◌≡◌, refl, ◌∙◌, ap, Bool, true, false, Option, none, some, List, [], ◌∷◌, ◌++◌, ◌==◌,
  if◌then◌else◌, arith, Outcome, ok, exit,
}

-- What `socket` returns for a `struct addrinfo`, none for -1, and whether `bind` succeeds.
pub record Address : Type 0 where
  pub socket : Option ℕ
  pub binds : Bool

abbrev pub close_descriptor : ℕ → List ℕ → List ℕ
close_descriptor k [] = []
close_descriptor k (x ∷ xs) = if k == x then xs else x ∷ close_descriptor k xs

-- The loop over the addresses; `opened` are the descriptors of the process.
unfoldable pub bind_first : List Address → List ℕ → Option ℕ × List ℕ
bind_first [] opened = (none, opened)
bind_first (info ∷ rest) opened = elim info.socket [
  | none ↦ bind_first rest opened
  | some k ↦ elim info.binds [
    | true ↦ (some k, k ∷ opened)
    | false ↦ bind_first rest (close_descriptor k (k ∷ opened))
  ]
]

abbrev pub listen_on : Bool → Option ℕ × List ℕ → Outcome (ℕ × List ℕ)
listen_on listens (none, opened) = exit 1
listen_on listens (some k, opened) = if listens then ok (k, opened) else exit 1

-- From `getaddrinfo`, which returns no list when it fails, to `listen`.
unfoldable pub open_socket : Option (List Address) → Bool → List ℕ → Outcome (ℕ × List ℕ)
unfolding bind_first
open_socket none listens opened = exit 1
open_socket (some addresses) listens opened = listen_on listens (bind_first addresses opened)

abbrev pub usable : Address → Bool
usable info = elim info.socket [ none ↦ false | some k ↦ info.binds ]

abbrev pub none_usable : List Address → Bool
none_usable [] = true
none_usable (info ∷ rest) = if usable info then false else none_usable rest

-- An address that cannot be used leaves nothing behind.
bind_first_skip :
    (info : Address) (rest : List Address) (opened : List ℕ)
    → usable info ≡ false
    → bind_first (info ∷ rest) opened ≡ bind_first rest opened
unfolding bind_first
bind_first_skip info rest opened out = ground arith

pub bind_first-none :
    (addresses : List Address) (opened : List ℕ)
    → none_usable addresses ≡ true
    → bind_first addresses opened ≡ (none, opened)
unfolding bind_first
bind_first-none [] opened e = refl
bind_first-none (info ∷ rest) opened e =
    bind_first_skip info rest opened (ground arith) ∙ bind_first-none rest opened (ground arith)

pub bind_first-some :
    (before : List Address) (info : Address) (after : List Address) (k : ℕ) (opened : List ℕ)
    → none_usable before ≡ true
    → info.socket ≡ some k
    → info.binds ≡ true
    → bind_first (before ++ info ∷ after) opened ≡ (some k, k ∷ opened)
unfolding bind_first
bind_first-some [] info after k opened e at binds = ground arith
bind_first-some (x ∷ before) info after k opened e at binds =
    bind_first_skip x (before ++ info ∷ after) opened (ground arith)
    ∙ bind_first-some before info after k opened (ground arith) at binds

-- When an address has a socket that can be bound, and none before it does, and `listen` succeeds,
-- the server listens on that socket, which is the one descriptor that is opened.
pub open_socket-first :
    (before : List Address) (info : Address) (after : List Address) (k : ℕ) (opened : List ℕ)
    → none_usable before ≡ true
    → info.socket ≡ some k
    → info.binds ≡ true
    → open_socket (some (before ++ info ∷ after)) true opened ≡ ok (k, k ∷ opened)
unfolding open_socket
open_socket-first before info after k opened e at binds =
    ap (listen_on true) (bind_first-some before info after k opened e at binds)

-- When no address has a socket that can be bound, the server exits with 1.
pub open_socket-none :
    (addresses : List Address) (listens : Bool) (opened : List ℕ)
    → none_usable addresses ≡ true
    → open_socket (some addresses) listens opened ≡ exit 1
unfolding open_socket
open_socket-none addresses listens opened e =
    ap (listen_on listens) (bind_first-none addresses opened e)
