-- ===== src/Epoll/Updates.antt =====
-- An update of a client that is read from loses no byte: what it had, and what has arrived, is the
-- start of a message, or a whole message and what is left in the buffer.
use c_async_await.Base.{
  ℕ, ◌+◌, ◌-◌, ◌*◌, ◌≤◌, ◌≡◌, inl, inr, refl, ◌∙◌, ap, true, false, some, List, ◌∷◌, ◌++◌, ◌==◌,
  int_max, ◌>>=◌, length, drop, arith, Bool-cases, length-append, take-append, take-length, le→leb,
}
use c_async_await.Echo.{Received, bytes, buf_size}
use c_async_await.Epoll.{
  ClientMode, reading, writing, Client, keep, fill_buffer, read_size, read_buffered, update_reading,
}
use c_async_await.Epoll.Bytes.{unread}
use c_async_await.Epoll.{client_on_update, when_reading, when_writing, then_writing}
use c_async_await.Epoll.Parts.{Sized, size_read, size_stopped, read_buffered-text}
use c_async_await.Epoll.State.{IsReading, seen, Progress, ntohl-some}
use c_async_await.Echo.{Sent}

read_buffered-Progress :
    (c : Client) (text : List ℕ)
    → IsReading c text
    → (length text + length (unread c) + 2) * 2 + 10 ≤ int_max
    → c.bytes_processed + (length text + length (unread c) + 4) ≤ int_max
    → (c' : Client) × (read_buffered c ≡ some c') × Progress c c' (seen c text ++ unread c)
unfolding read_buffered
read_buffered-Progress c text r small counted =
    let (complete, c₁, runs, s) = size_read c text r in
    elim complete
        as (λ b.
          read_size (4 - c.size_ptr) c ≡ some (b, c₁)
          → Sized c c₁ text b
          → (c' : Client) × (read_buffered c ≡ some c') × Progress c c' (seen c text ++ unread c)) [
            | false ↦ λ runs s. (c₁, rw runs refl, size_stopped r s)
            | true ↦ λ runs s.
                let (n, announced) = ntohl-some c₁.size s.reads.buffered.four in
                read_buffered-text r s runs announced small counted
          ]
      runs s

-- What an update can read: what arrives if the buffer is at its start, or else what is left in it.
abbrev pub available : Client → List ℕ → List ℕ
available c xs = elim (c.read_ptr == 0) [ true ↦ xs | false ↦ unread c ]

refilled :
    (c : Client) (text : List ℕ) (x : ℕ) (xs : List ℕ)
    → IsReading c text
    → c.read_ptr ≡ 0
    → length (x ∷ xs) ≤ buf_size
    → (c' : Client) × (fill_buffer c (bytes (x ∷ xs)) ≡ some (some c'))
      × IsReading c' text
      × (unread c' ≡ x ∷ xs)
      × (c'.mode ≡ c.mode)
      × (c'.bytes_processed ≡ c.bytes_processed)
      × (seen c' text ≡ seen c text)
unfolding fill_buffer
refilled c text x xs r start le =
    let n = length (x ∷ xs) in
    let memory = (x ∷ xs) ++ drop n c.read_buffer in
    let fits = le→leb n buf_size le in
    (
      record c { read_buffer = memory; read_end = n },
      rw fits refl,
      record {
        buffered = record {
          ordered = omega (arith, start);
          inside = omega (arith, length-append (x ∷ xs) (drop n c.read_buffer));
          four = r.buffered.four;
        };
        few = r.few;
        holds = r.holds;
        counted = r.counted;
        begins = r.begins;
        within = r.within;
      },
      (let e : n - c.read_ptr ≡ n = omega (arith, start) in
          rw (e, start)
            (take-append n (x ∷ xs) (drop n c.read_buffer) (omega arith) ∙ take-length (x ∷ xs))),
      refl,
      refl,
      refl,
    )

Progress-same :
    (c c₁ c' : Client) {all all' : List ℕ}
    → c₁.mode ≡ c.mode
    → c₁.bytes_processed ≡ c.bytes_processed
    → all ≡ all'
    → Progress c₁ c' all
    → Progress c c' all'
Progress-same c c₁ c' mode processed e (text', inl (m, r, u, s)) =
    (text', inl (m ∙ mode, r, u, s ∙ e))
Progress-same c c₁ c' mode processed e (text', inr (m, h, n, a, b, i, s, bp)) =
    (text', inr (m, h, n, a, b, i, s ∙ e, bp ∙ ap (λ k. k + (length text' + 4)) processed))

update_reading-Progress :
    (c : Client) (text : List ℕ) (x : ℕ) (xs : List ℕ)
    → IsReading c text
    → length (x ∷ xs) ≤ buf_size
    → (length text + length (available c (x ∷ xs)) + 2) * 2 + 10 ≤ int_max
    → c.bytes_processed + (length text + length (available c (x ∷ xs)) + 4) ≤ int_max
    → (c' : Client) × (update_reading c (bytes (x ∷ xs)) ≡ some (keep c'))
      × Progress c c' (seen c text ++ available c (x ∷ xs))
unfolding update_reading
update_reading-Progress c text x xs r le small counted = elim (Bool-cases (c.read_ptr == 0)) [
  | inl start ↦
      let (c₁, fills, r₁, holds, mode, processed, same) =
        refilled c text x xs r (ground arith) le in
      let avail : unread c₁ ≡ available c (x ∷ xs) = holds ∙ rw (available, start) refl in
      let (c', runs, p) =
        read_buffered-Progress c₁ text r₁ (omega (arith, ap length avail, small))
          (omega (arith, ap length avail, counted, processed)) in
      let all : seen c₁ text ++ unread c₁ ≡ seen c text ++ available c (x ∷ xs) =
        rw (same, avail) refl in
      (c', rw (update_reading, start, fills, runs) refl, Progress-same c c₁ c' mode processed all p)
  | inr inside ↦
      let avail : unread c ≡ available c (x ∷ xs) = rw (available, inside) refl in
      let (c', runs, p) =
        read_buffered-Progress c text r (omega (arith, ap length avail, small))
          (omega (arith, ap length avail, counted)) in
      (
        c',
        rw (update_reading, inside, runs) refl,
        Progress-same c c c' refl refl (ap (seen c text ++◌) avail) p,
      )
]

not_writable :
    (mode : ClientMode) (c : Client) (sent : Sent) → when_writing mode c false sent ≡ some (keep c)
not_writable reading c sent = refl
not_writable writing c sent = refl

when_reading_in :
    (c : Client) (received : Received) (sent : Sent) {c' : Client}
    → c.mode ≡ reading
    → update_reading c received ≡ some (keep c')
    → client_on_update c (true, false) received sent ≡ some (keep c')
unfolding client_on_update
when_reading_in c received sent {c'} mode runs =
    ap (λ m. when_reading m c true received >>= λ u. then_writing u false sent) mode
    ∙ (ap (λ o. o >>= λ u. then_writing u false sent) runs ∙ not_writable c'.mode c' sent)

-- When a client that reads is updated for EPOLLIN alone, with a chunk that a `recv` may bring, and
-- the sums fit an `int`, the update keeps the client and loses no byte: what it had of the message,
-- followed by what there was to read, is the start of a message with the buffer empty, or a whole
-- message, of the length that its first four bytes say unless they are negative, followed by what
-- is left in the buffer, and then the client is to be written to and the counter grows by the
-- message with its size.
pub client_on_update-Progress :
    (c : Client) (text : List ℕ) (x : ℕ) (xs : List ℕ) (sent : Sent)
    → c.mode ≡ reading
    → IsReading c text
    → length (x ∷ xs) ≤ buf_size
    → (length text + length (available c (x ∷ xs)) + 2) * 2 + 10 ≤ int_max
    → c.bytes_processed + (length text + length (available c (x ∷ xs)) + 4) ≤ int_max
    → (c' : Client) × (client_on_update c (true, false) (bytes (x ∷ xs)) sent ≡ some (keep c'))
      × Progress c c' (seen c text ++ available c (x ∷ xs))
client_on_update-Progress c text x xs sent mode r le small counted =
    let (c', runs, p) = update_reading-Progress c text x xs r le small counted in
    (c', when_reading_in c (bytes (x ∷ xs)) sent mode runs, p)
