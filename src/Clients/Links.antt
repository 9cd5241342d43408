-- ===== src/Clients/Links.antt =====
-- What holds of the links whatever clients come and go, in whichever order.
use c_async_await.Base.{
  ℕ, ◌+◌, ◌≤◌, ◌<◌, ◌≡◌, ◌≢◌, refl, sym, ◌∙◌, ap, ltb, Option, none, some, ◌==◌, arith, ◌⊎◌,
  Bool-cases, inl, inr,
}
use c_async_await.Clients.{Link, Heap, put_link}
use c_async_await.Clients.Chain.{put_self, put_ne}

abbrev pub socket_at : Heap → ℕ → Option ℕ
socket_at heap a = elim (heap a) [ none ↦ none | some link ↦ some link.socket ]

pub put_some :
    (a b : ℕ) (link : Link) (heap : Heap) (m : Link)
    → heap b ≡ some m
    → (m' : Link) × (put_link a link heap b ≡ some m')
put_some a b link heap m e = elim (Bool-cases (a == b)) [
  | inl q ↦ (link, ground arith)
  | inr q ↦ (m, ground arith)
]

pub put_head :
    (a d : ℕ) (link : Link) (heap : Heap)
    → some a ≡ some d
    → (l : Link) × (put_link a link heap d ≡ some l)
put_head a d link heap q =
    let same : a ≡ d = ground arith in (link, rw (← same) (put_self a link heap))

put_cases :
    (a b : ℕ) (link : Link) (heap : Heap) (m : Link)
    → put_link a link heap b ≡ some m
    → ((a ≡ b) × (link ≡ m)) ⊎ ((a ≢ b) × (heap b ≡ some m))
put_cases a b link heap m e = elim (Bool-cases (a == b)) [
  | inl q ↦ inl (ground arith, ground arith)
  | inr q ↦ inr ((λ i. ground arith), ground arith)
]

pub socket-put_self :
    (a : ℕ) (link : Link) (heap : Heap) → socket_at (put_link a link heap) a ≡ some link.socket
socket-put_self a link heap = rw (socket_at, put_self a link heap) refl

pub socket-put_ne :
    (a b : ℕ) (link : Link) (heap : Heap)
    → a ≢ b
    → socket_at (put_link a link heap) b ≡ socket_at heap b
socket-put_ne a b link heap ne = rw (socket_at, put_ne a b link heap ne) refl

-- A write that keeps the socket.
pub socket-put_same :
    (a b : ℕ) (link old : Link) (heap : Heap)
    → heap a ≡ some old
    → link.socket ≡ old.socket
    → socket_at (put_link a link heap) b ≡ socket_at heap b
socket-put_same a b link old heap at same = elim (Bool-cases (a == b)) [
  | inl q ↦
      let here : a ≡ b = ground arith in
      rw (← here) (socket-put_self a link heap ∙ (ap some same ∙ sym (rw (socket_at, at) refl)))
  | inr q ↦ socket-put_ne a b link heap (λ i. ground arith)
]

-- The links of a heap with the first client `head`: it has none before it and is the next of none,
-- and all links are to clients.
pub record HasLinks (heap : Heap) (head : Option ℕ) (fresh : ℕ) : Type 0 where
  pub below : (a : ℕ) → fresh ≤ a → heap a ≡ none
  pub front : (d : ℕ) (link : Link) → head ≡ some d → heap d ≡ some link → link.prev ≡ none
  pub nexts :
      (a n : ℕ) (link : Link)
      → heap a ≡ some link
      → link.next ≡ some n
      → (head ≢ some n) × ((m : Link) × (heap n ≡ some m))
  pub prevs :
      (a p : ℕ) (link : Link)
      → heap a ≡ some link
      → link.prev ≡ some p
      → (m : Link) × (heap p ≡ some m)

pub below_fresh :
    {heap : Heap} {head : Option ℕ} {fresh : ℕ}
    → HasLinks heap head fresh
    → (a : ℕ) (link : Link) → heap a ≡ some link
    → a < fresh
below_fresh {heap} {head} {fresh} r a link at = elim (Bool-cases (ltb a fresh)) [
  | inl q ↦ ground arith
  | inr q ↦ let gone = r.below a (ground arith) in absurd (ground arith)
]

-- A write whose links are to clients, and to none before the first.
pub put_links :
    {heap : Heap} {head : Option ℕ} {fresh : ℕ} (a : ℕ) (link : Link)
    → HasLinks heap head fresh
    → a < fresh
    → (head ≡ some a → link.prev ≡ none)
    → ((n : ℕ) → link.next ≡ some n → (head ≢ some n) × ((m : Link) × (heap n ≡ some m)))
    → ((p : ℕ) → link.prev ≡ some p → (m : Link) × (heap p ≡ some m))
    → HasLinks (put_link a link heap) head fresh
put_links {heap} {head} {fresh} a link r lt first next prev = record {
  below = λ b le. put_ne a b link heap (λ i. absurd (omega arith)) ∙ r.below b le;
  front = λ d l q at. elim (put_cases a d link heap l at) [
    | inl (i, j) ↦ rw (← j) (first (q ∙ ap some (sym i)))
    | inr (i, at') ↦ r.front d l q at'
  ];
  nexts = λ b n l at q. elim (put_cases a b link heap l at) [
    | inl (i, j) ↦ let (ne, (m, e)) = next n (rw j q) in (ne, put_some a n link heap m e)
    | inr (i, at') ↦ let (ne, (m, e)) = r.nexts b n l at' q in (ne, put_some a n link heap m e)
  ];
  prevs = λ b p l at q. elim (put_cases a b link heap l at) [
    | inl (i, j) ↦ let (m, e) = prev p (rw j q) in put_some a p link heap m e
    | inr (i, at') ↦ let (m, e) = r.prevs b p l at' q in put_some a p link heap m e
  ];
}

-- A client is made at the address `fresh`, to be the first.
pub made_links :
    {heap : Heap} {head : Option ℕ} {fresh : ℕ} (socket : ℕ)
    → HasLinks heap head fresh
    → ((d : ℕ) → head ≡ some d → (l : Link) × (heap d ≡ some l))
    → HasLinks
        (put_link fresh (record { prev = none; next = head; socket = socket }) heap)
        (some fresh)
        (fresh + 1)
made_links {heap} {head} {fresh} socket r some_head =
    let gone = r.below fresh (omega arith) in
    put_links fresh (record { prev = none; next = head; socket = socket })
      (record {
        below = λ b le. r.below b (omega arith);
        front = λ d l q at. absurd (ground arith);
        nexts = λ b n l at q. let (_, (m, e)) = r.nexts b n l at q in ((λ i. ground arith), (m, e));
        prevs = λ b p l at q. r.prevs b p l at q;
      })
      (omega arith) (λ i. refl) (λ n q. let (l, e) = some_head n q in ((λ i. ground arith), (l, e)))
      (λ p q. absurd (ground arith))
