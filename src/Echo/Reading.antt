-- ===== src/Echo/Reading.antt =====
-- What `read_n_bytes` returns: the next bytes of the stream, however `recv` cut it.
use c_async_await.Base.{
  ℕ, zero, suc, ◌+◌, ◌-◌, ◌≤◌, ◌<◌, ◌≡◌, inl, inr, refl, ◌∙◌, sym, ap, some, List, [], ◌++◌, ltb,
  length, take, drop, arith, Bool-cases, length-drop,
}
use mathlib.Core.List.{append-nil}
use c_async_await.Echo.{Received, Status, returned, Buffer, ReadResult, read_rounds, read_n_bytes}
use c_async_await.Echo.Stream.{IsBuffer, ending, Fits, pending, refill-cases}
use c_async_await.Echo.Rounds.{
  Round, round, read_rounds-done, read_rounds_stopped, copies-take, copies-drop, copies-all,
}

-- What is left when a call has returned.
abbrev pub Leaves : ReadResult → List ℕ → Status → Type 0
Leaves r later last =
    IsBuffer r.buf × Fits r.input × (pending r.buf r.input ≡ later) × (ending r.input ≡ last)

-- The loop returns with all the bytes that it was asked for.
abbrev Completes : ℕ → ℕ → ℕ → List ℕ → Buffer → List Received → Type 0
Completes fuel n amt out buf input =
    (r : ReadResult) × (read_rounds fuel n amt out buf input ≡ some r)
    × (r.outcome ≡ returned n)
    × (r.out ≡ out ++ take (n - amt) (pending buf input))
    × Leaves r (drop (n - amt) (pending buf input)) (ending input)

-- The connection ends before.
abbrev FallsShort : ℕ → ℕ → ℕ → List ℕ → Buffer → List Received → Type 0
FallsShort fuel n amt out buf input =
    (r : ReadResult) × (read_rounds fuel n amt out buf input ≡ some r)
    × (r.outcome ≡ ending input)
    × (r.out ≡ out ++ pending buf input)

done-Completes :
    (fuel n amt : ℕ) (out : List ℕ) (buf : Buffer) (input : List Received)
    → IsBuffer buf
    → Fits input
    → amt ≡ n
    → Completes (suc fuel) n amt out buf input
done-Completes fuel n amt out buf input b f e =
    let z : n - amt ≡ 0 = omega (arith, e) in
    (
      record { outcome = returned amt; out = out; buf = buf; input = input },
      read_rounds-done fuel n amt out buf input (omega arith),
      ap returned e,
      rw z (sym (append-nil out)),
      (b, f, rw z refl, refl),
    )

module _ (fuel n amt : ℕ) (out : List ℕ) (buf : Buffer) (input : List Received)
    (r : Round fuel n amt out buf input) where
  abbrev Later : (ℕ → ℕ → ℕ → List ℕ → Buffer → List Received → Type 0) → Type 0
  Later P = P fuel n (amt + r.w) (out ++ take r.w (pending buf input)) r.buf' r.input'

  round-Completes : Later Completes → Completes (suc fuel) n amt out buf input
  round-Completes (res, runs, end, text, left_over) =
      let left : n - amt ≡ r.w + (n - (amt + r.w)) = omega (arith, r.bound) in
      let m = n - (amt + r.w) in
      let all = pending buf input in
      let later = pending r.buf' r.input' in
      (
        res,
        r.runs ∙ runs,
        end,
        text ∙ copies-take r.w m (n - amt) all later left r.leaves out,
        (
          left_over.0,
          left_over.1,
          left_over.2 ∙ copies-drop r.w m (n - amt) all later left r.leaves,
          left_over.3 ∙ r.same_end,
        ),
      )

  round-FallsShort : Later FallsShort → FallsShort (suc fuel) n amt out buf input
  round-FallsShort (res, runs, end, text) = (
    res,
    r.runs ∙ runs,
    end ∙ r.same_end,
    text ∙ copies-all r.w (pending buf input) (pending r.buf' r.input') out r.leaves,
  )

  round-length : length (pending r.buf' r.input') + r.w ≡ length (pending buf input)
  round-length = omega (arith, ap length r.leaves, length-drop r.w (pending buf input), r.enough)

rounds-Completes :
    (fuel n amt : ℕ) (out : List ℕ) (buf : Buffer) (input : List Received)
    → IsBuffer buf
    → Fits input
    → amt ≤ n
    → n - amt ≤ fuel
    → n - amt ≤ length (pending buf input)
    → Completes (suc fuel) n amt out buf input
rounds-Completes zero n amt out buf input b f le near long =
    done-Completes zero n amt out buf input b f (omega arith)
rounds-Completes (suc fuel) n amt out buf input b f le near long = elim (Bool-cases (ltb amt n)) [
  | inr done ↦ done-Completes (suc fuel) n amt out buf input b f (ground arith)
  | inl more ↦ elim (refill-cases buf input b f) [
    | inl r ↦ absurd (ground (arith, ap length r.empty))
    | inr (buf₁, input₁, refilled) ↦
        let r = round (suc fuel) n amt out (ground arith) refilled in
        let total = round-length (suc fuel) n amt out buf input r in
        round-Completes (suc fuel) n amt out buf input r (
          rounds-Completes fuel n (amt + r.w) (out ++ take r.w (pending buf input)) r.buf' r.input'
            r.good r.fits (omega (arith, r.bound)) (omega (arith, r.more)) (omega (arith, total)))
  ]
]

rounds-FallsShort :
    (fuel n amt : ℕ) (out : List ℕ) (buf : Buffer) (input : List Received)
    → IsBuffer buf
    → Fits input
    → n - amt ≤ fuel
    → length (pending buf input) < n - amt
    → FallsShort (suc fuel) n amt out buf input
rounds-FallsShort zero n amt out buf input b f near short = absurd (omega arith)
rounds-FallsShort (suc fuel) n amt out buf input b f near short =
    elim (refill-cases buf input b f) [
      | inl r ↦ (
        record { outcome = ending input; out = out; buf = buf; input = r.later },
        read_rounds_stopped (suc fuel) n amt out (omega arith) r,
        refl,
        sym (ap (out ++◌) r.empty ∙ append-nil out),
      )
      | inr (buf₁, input₁, refilled) ↦
          let r = round (suc fuel) n amt out (omega arith) refilled in
          let total = round-length (suc fuel) n amt out buf input r in
          round-FallsShort (suc fuel) n amt out buf input r (
            rounds-FallsShort fuel n (amt + r.w) (out ++ take r.w (pending buf input)) r.buf'
              r.input' r.good r.fits (omega (arith, r.more)) (omega (arith, total, r.bound)))
    ]

module _ (n : ℕ) (buf : Buffer) (input : List Received) (b : IsBuffer buf) (f : Fits input) where
  -- When at least `n` bytes are in the buffer or arrive in chunks of at most 256 bytes before the
  -- connection ends, `read_n_bytes` returns `n` with the first `n` of them, and the rest is what is
  -- left in the buffer or still arrives.
  pub read_n_bytes-enough :
      n ≤ length (pending buf input)
      → (r : ReadResult) × (read_n_bytes n buf input ≡ some r)
        × (r.outcome ≡ returned n)
        × (r.out ≡ take n (pending buf input))
        × Leaves r (drop n (pending buf input)) (ending input)
  unfolding read_n_bytes
  read_n_bytes-enough long =
      let e : n - 0 ≡ n = omega arith in
      rw e at (rounds-Completes n n 0 [] buf input b f (omega arith) (omega arith) (omega arith))

  -- When fewer than `n` bytes are in the buffer or arrive in chunks of at most 256 bytes before the
  -- connection ends, `read_n_bytes` ends as the connection does: with 0 when it was closed, with -1
  -- when `recv` fails, or not at all when nothing more happens; all the bytes that there were are
  -- in `out`.
  pub read_n_bytes-short :
      length (pending buf input) < n
      → (r : ReadResult) × (read_n_bytes n buf input ≡ some r)
        × (r.outcome ≡ ending input)
        × (r.out ≡ pending buf input)
  unfolding read_n_bytes
  read_n_bytes-short short = (rounds-FallsShort n n 0 [] buf input b f (omega arith) (omega arith))

-- Two readers before which there are the same bytes, at least `n`, however these are divided
-- between buffer and chunks of at most 256 bytes, get the same result and the same bytes from
-- `read_n_bytes`, and the same bytes are left before them.
pub read_n_bytes-eq :
    (n : ℕ) (buf₁ buf₂ : Buffer) (input₁ input₂ : List Received)
    → IsBuffer buf₁
    → IsBuffer buf₂
    → Fits input₁
    → Fits input₂
    → pending buf₁ input₁ ≡ pending buf₂ input₂
    → n ≤ length (pending buf₁ input₁)
    → (r₁ r₂ : ReadResult) × (read_n_bytes n buf₁ input₁ ≡ some r₁)
      × (read_n_bytes n buf₂ input₂ ≡ some r₂)
      × (r₁.outcome ≡ r₂.outcome)
      × (r₁.out ≡ r₂.out)
      × (pending r₁.buf r₁.input ≡ pending r₂.buf r₂.input)
read_n_bytes-eq n buf₁ buf₂ input₁ input₂ b₁ b₂ f₁ f₂ same long =
    let (r₁, e₁, o₁, t₁, l₁) = read_n_bytes-enough n buf₁ input₁ b₁ f₁ long in
    let (r₂, e₂, o₂, t₂, l₂) =
      read_n_bytes-enough n buf₂ input₂ b₂ f₂ (omega (arith, ap length same)) in
    (
      r₁,
      r₂,
      e₁,
      e₂,
      o₁ ∙ sym o₂,
      t₁ ∙ (ap (take n) same ∙ sym t₂),
      l₁.2 ∙ (ap (drop n) same ∙ sym l₂.2),
    )
