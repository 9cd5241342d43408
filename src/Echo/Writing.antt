-- ===== src/Echo/Writing.antt =====
-- What `write_n_bytes` puts on the wire: the start of the message, and all of it when it succeeds.
use c_async_await.Base.{
  ℕ, ◌+◌, ◌-◌, ◌≤◌, ◌<◌, ◌≡◌, inl, inr, refl, ◌∙◌, ap, false, List, [], ◌∷◌, ◌++◌, ltb,
  if◌then◌else◌, int_max, length, take, drop, arith, Bool-cases, take-take-drop,
}
use mathlib.Core.List.{append_assoc, append-nil}
use c_async_await.Echo.{
  Sent, room, refused, returned, waits, WriteResult, write_rounds, write_n_bytes,
}

-- A message is sent whole, or the result says that it was not.
pub record IsWritten (r : WriteResult) (n : ℕ) (msg before : List ℕ) : Type 0 where
  pub amt : ℕ
  pub bound : amt ≤ n
  pub prefix : r.wire ≡ before ++ take amt msg
  pub whole : r.outcome ≡ returned n → amt ≡ n

round_taken :
    (out msg : List ℕ) (amt w : ℕ)
    → (out ++ take amt msg) ++ take w (drop amt msg) ≡ out ++ take (amt + w) msg
round_taken out msg amt w =
    append_assoc out (take amt msg) (take w (drop amt msg))
    ∙ ap (out ++◌) (take-take-drop amt w msg)

-- What one `send` takes.
abbrev sent_of : ℕ → ℕ → ℕ
sent_of r left = if ltb r left then r else left

write_rounds-IsWritten :
    (n : ℕ) (msg out : List ℕ) (amt : ℕ) (output : List Sent)
    → n ≤ int_max
    → amt ≤ n
    → IsWritten (write_rounds n msg amt (out ++ take amt msg) output) n msg out
unfolding write_rounds
write_rounds-IsWritten n msg out amt [] small le = record {
  amt = amt;
  bound = le;
  prefix = refl;
  whole = λ e. elim (Bool-cases (ltb amt n)) [
    | inl more ↦ (let e' : waits ≡ returned n = rw more at e in ground arith)
    | inr done ↦ ground arith
  ];
}
write_rounds-IsWritten n msg out amt (refused ∷ output) small le = elim (Bool-cases (ltb amt n)) [
  | inl more ↦ rw more (record { amt = amt; bound = le; prefix = refl; whole = λ e. ground arith })
  | inr done ↦ rw done (record { amt = amt; bound = le; prefix = refl; whole = λ e. ground arith })
]
write_rounds-IsWritten n msg out amt (room r ∷ output) small le =
    let w = sent_of r (n - amt) in
    let rest = write_rounds-IsWritten n msg out (amt + w) output small (ground arith) in
    elim (Bool-cases (ltb amt n)) [
      | inl more ↦ rw (more, round_taken out msg amt w) rest
      | inr done ↦
          rw done (record { amt = amt; bound = le; prefix = refl; whole = λ e. ground arith })
    ]

-- Every `send` takes a byte at least.
abbrev pub Willing : List Sent → Type 0
Willing [] = Unit {0}
Willing (refused ∷ output) = ⊥
Willing (room r ∷ output) = (0 < r) × Willing output

-- The whole message is sent, and no more events are used than there are bytes.
pub record IsSent (r : WriteResult) (n left : ℕ) (msg before : List ℕ) (output : List Sent)
    : Type 0 where
  pub outcome : r.outcome ≡ returned n
  pub wire : r.wire ≡ before ++ take n msg
  pub willing : Willing r.output
  pub used : length output ≤ length r.output + left

write_rounds-IsSent :
    (n : ℕ) (msg out : List ℕ) (amt : ℕ) (output : List Sent)
    → amt ≤ n
    → Willing output
    → n - amt ≤ length output
    → IsSent (write_rounds n msg amt (out ++ take amt msg) output) n (n - amt) msg out output
unfolding write_rounds
write_rounds-IsSent n msg out amt [] le willing enough =
    let e : amt ≡ n = omega arith in
    let done : ltb amt n ≡ false = ground arith in
    rw done (record {
      outcome = ap returned e;
      wire = ap (λ k. out ++ take k msg) e;
      willing = tt;
      used = omega arith;
    })
write_rounds-IsSent n msg out amt (refused ∷ output) le willing enough = absurd willing
write_rounds-IsSent n msg out amt (room r ∷ output) le willing enough =
    let w = sent_of r (n - amt) in
    elim (Bool-cases (ltb amt n)) [
      | inl more ↦
          let rest =
            write_rounds-IsSent n msg out (amt + w) output (ground arith) willing.1
              (ground (arith, willing.0)) in
          rw (more, round_taken out msg amt w)
            (record {
              outcome = rest.outcome;
              wire = rest.wire;
              willing = rest.willing;
              used = ground (arith, rest.used, willing.0);
            })
      | inr done ↦ rw done (
          let e : amt ≡ n = ground arith in
          record {
            outcome = ap returned e;
            wire = ap (λ k. out ++ take k msg) e;
            willing = willing;
            used = omega arith;
          })
    ]

module _ (n : ℕ) (msg wire : List ℕ) (output : List Sent) where
  -- For a number of bytes that fits an `int`, whatever the calls of `send` bring, `write_n_bytes`
  -- sends the start of the message, in order and no byte twice, and when it returns that number it
  -- has sent so many.
  pub write_n_bytes-IsWritten : n ≤ int_max → IsWritten (write_n_bytes n msg wire output) n msg wire
  unfolding write_n_bytes
  write_n_bytes-IsWritten small =
      let start = append-nil wire in
      rw start at (write_rounds-IsWritten n msg wire 0 output small (omega arith))

  pub write_n_bytes-IsSent :
      Willing output
      → n ≤ length output
      → IsSent (write_n_bytes n msg wire output) n n msg wire output
  unfolding write_n_bytes
  write_n_bytes-IsSent willing enough =
      let start = append-nil wire in
      let e : n - 0 ≡ n = omega arith in
      rw (start, e) at (write_rounds-IsSent n msg wire 0 output (omega arith) willing (omega arith))
