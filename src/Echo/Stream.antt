-- ===== src/Echo/Stream.antt =====
-- The bytes that a reader has before it, in the buffer and in what will arrive.
use c_async_await.Base.{
  ℕ, ◌-◌, ◌≤◌, ◌<◌, ◌≡◌, ◌⊎◌, inl, inr, refl, ◌∙◌, sym, ap, some, List, [], ◌∷◌, ◌++◌, ◌==◌, length,
  take, drop, arith, Bool-cases, length-append, take-append, take-length,
}
use c_async_await.Echo.{
  buf_size, Received, bytes, broken, Status, returned, waits, Buffer, ready, stopped, refill,
}
use c_async_await.Sockets.{failed}

-- What the buffer still holds.
abbrev pub unread : Buffer → List ℕ
unread buf = take (buf.end - buf.start) (drop buf.start buf.buffer)

pub record IsBuffer (buf : Buffer) : Type 0 where
  pub ordered : buf.start ≤ buf.end
  pub inside : buf.end ≤ length buf.buffer

-- The bytes that arrive before the connection ends, and how a reader sees that it does.
abbrev pub stream : List Received → List ℕ
stream [] = []
stream (broken ∷ input) = []
stream (bytes [] ∷ input) = []
stream (bytes (x ∷ xs) ∷ input) = (x ∷ xs) ++ stream input

abbrev pub ending : List Received → Status
ending [] = waits
ending (broken ∷ input) = returned failed
ending (bytes [] ∷ input) = returned 0
ending (bytes (x ∷ xs) ∷ input) = ending input

-- A `recv` writes no more than it was asked for.
abbrev pub Fits : List Received → Type 0
Fits [] = Unit {0}
Fits (broken ∷ input) = Fits input
Fits (bytes xs ∷ input) = (length xs ≤ buf_size) × Fits input

-- All that can still be read.
abbrev pub pending : Buffer → List Received → List ℕ
pending buf input = unread buf ++ stream input

take-zero : (n : ℕ) (xs : List ℕ) → n ≡ 0 → take n xs ≡ []
take-zero n xs e = rw e refl

unread-nil : (buf : Buffer) → buf.start ≡ buf.end → unread buf ≡ []
unread-nil buf e = take-zero (buf.end - buf.start) (drop buf.start buf.buffer) (omega (arith, e))

-- After a refill the same bytes are pending.
pub record Refilled (buf : Buffer) (input : List Received) (buf' : Buffer) (input' : List Received)
    : Type 0 where
  pub runs : refill buf input ≡ some (ready buf' input')
  pub good : IsBuffer buf'
  pub some_left : buf'.start < buf'.end
  pub fits : Fits input'
  pub same : pending buf' input' ≡ pending buf input
  pub same_end : ending input' ≡ ending input

pub record Refused (buf : Buffer) (input : List Received) : Type 0 where
  pub later : List Received
  pub runs : refill buf input ≡ some (stopped (ending input) later)
  pub empty : pending buf input ≡ []

received :
    {buf : Buffer} (x : ℕ) (xs : List ℕ) (i : List Received)
    → buf.start ≡ buf.end
    → Fits (bytes (x ∷ xs) ∷ i)
    → (buf' : Buffer) × (input' : List Received) × Refilled buf (bytes (x ∷ xs) ∷ i) buf' input'
received {buf} x xs i drained f =
    let n = length (x ∷ xs) in
    let memory = (x ∷ xs) ++ drop n buf.buffer in
    (
      record { buffer = memory; start = 0; end = n },
      i,
      record {
        runs = ground (arith, f.0);
        good = record {
          ordered = omega arith;
          inside = omega (arith, length-append (x ∷ xs) (drop n buf.buffer));
        };
        some_left = omega arith;
        fits = f.1;
        same =
            let e : n - 0 ≡ n = omega arith in
            let all : take n memory ≡ x ∷ xs =
              take-append n (x ∷ xs) (drop n buf.buffer) (omega arith) ∙ take-length (x ∷ xs) in
            ap (◌++ stream i) (ap (λ k. take k memory) e ∙ all)
            ∙ sym (ap (◌++ stream (bytes (x ∷ xs) ∷ i)) (unread-nil buf drained));
        same_end = refl;
      },
    )

pub refill-cases :
    (buf : Buffer) (input : List Received)
    → IsBuffer buf
    → Fits input
    → Refused buf input
      ⊎ ((buf' : Buffer) × (input' : List Received) × Refilled buf input buf' input')
refill-cases buf input b f = elim (Bool-cases (buf.start == buf.end)) [
  | inr held ↦ inr (
    buf,
    input,
    record {
      runs = ground arith;
      good = b;
      some_left = ground (arith, b.ordered);
      fits = f;
      same = refl;
      same_end = refl;
    },
  )
  | inl drained ↦
      let empty = unread-nil buf (ground arith) in
      elim input
          as (λ i.
            Fits i
            → Refused buf i
              ⊎ ((buf' : Buffer) × (input' : List Received) × Refilled buf i buf' input')) [
                | [] ↦
                    λ f. inl (record { later = []; runs = ground arith; empty = ap (◌++ []) empty })
                | broken ∷ i ↦
                    λ f. inl (record { later = i; runs = ground arith; empty = ap (◌++ []) empty })
                | bytes [] ∷ i ↦
                    λ f. inl (record { later = i; runs = ground arith; empty = ap (◌++ []) empty })
                | bytes (x ∷ xs) ∷ i ↦ λ f. inr (received x xs i (ground arith) f)
              ]
        f
]
