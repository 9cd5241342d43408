-- ===== src/Echo/Message.antt =====
-- A message of the echo server: its size in network order, its text, and how it is written back.
use c_async_await.Base.{
  ℕ, zero, suc, ◌+◌, ◌-◌, ◌/◌, ◌%◌, ◌≤◌, ◌<◌, ◌≡◌, refl, ◌∙◌, sym, ap, false, Option, some, List,
  [], ◌∷◌, ◌++◌, ltb, leb, ◌&&◌, if◌then◌else◌, int_max, length, get_elem?, take, replicate, arith,
  take-length, length-append, length-replicate,
}
use mathlib.Core.List.{append_assoc}
use c_async_await.Echo.{Sent, Server, again, text_of, ntohl, write_n_bytes, write_back}
use c_async_await.Echo.Writing.{Willing, write_n_bytes-IsSent}
use c_async_await.Str.{String, copy_in, string_clear, string_resize}
use c_async_await.Str.Text.{IsString, string_clear-IsString}
use c_async_await.Str.Resize.{string_resize_empty}

-- `htonl`: what a client sends before its message.
abbrev pub htonl : ℕ → List ℕ
htonl n = n / 16777216 ∷ n / 65536 % 256 ∷ n / 256 % 256 ∷ n % 256 ∷ []

abbrev pub frame : List ℕ → List ℕ
frame body = htonl (length body) ++ body

pub ntohl-htonl : (n : ℕ) → ntohl (htonl n) ≡ some n
unfolding ntohl
ntohl-htonl n = ap some (omega arith)

pub text_of-IsString :
    (xs : List ℕ) (cells : ℕ → Option ℕ) (i : ℕ)
    → ((k : ℕ) → k < length xs → cells (i + k) ≡ get_elem? xs k)
    → text_of cells i (length xs) ≡ some xs
text_of-IsString [] cells i reads = refl
text_of-IsString (x ∷ xs) cells i reads =
    let first : cells i ≡ some x =
      (let e : i + 0 ≡ i = omega arith in rw e at (reads 0 (omega arith))) in
    let rest = text_of-IsString xs cells (i + 1) (λ k lt.
      let e : i + suc k ≡ i + 1 + k = omega arith in rw e at (reads (suc k) (omega arith))) in
    rw (first, rest) refl

-- A text of the same length written over another.
pub overwrite :
    {s : String} {ys : List ℕ} (xs : List ℕ)
    → IsString s ys
    → length ys ≡ length xs
    → (s' : String) × (copy_in s 0 (get_elem? xs) (length xs) 0 (length xs) ≡ some s')
      × IsString s' xs
overwrite {s} xs h e =
    let n = length xs in
    (
      record s {
        cells = λ j. if leb 0 j && ltb j (0 + n) then get_elem? xs (0 + (j - 0)) else s.cells j;
      },
      ground (arith, h.long, h.ended, h.bare, h.sized),
      record {
        long = h.long ∙ e;
        reads = λ k lt. let z : 0 + (k - 0) ≡ k = omega arith in rw z (ground arith);
        ended = λ p. ((h.ended p).0, ground (arith, h.ended p, h.long));
        bare = h.bare;
        sized = h.sized;
        small = h.small;
      },
    )

-- The message is emptied and gets the length of the one to read.
pub prepared :
    {s : String} {xs : List ℕ} (n pad : ℕ)
    → IsString s xs
    → n + 1 ≤ int_max
    → (c r : String) × (string_clear s ≡ some c)
      × (string_resize c n pad ≡ some r)
      × ((ys : List ℕ) × IsString r ys × (length ys ≡ n))
unfolding string_resize
prepared zero pad h fits =
    let (c, e, hc, same_cap, same_size) = string_clear-IsString h in
    (c, c, e, ground (arith, hc.long), ([], hc, refl))
prepared (suc n) pad h fits =
    let (c, e, hc, same_cap, same_size) = string_clear-IsString h in
    let (r, e', hr) = string_resize_empty (suc n) pad hc (omega arith) fits in
    (c, r, e, e', (replicate (suc n) pad, hr, length-replicate (suc n) pad))

-- What a writer has sent.
pub record Wrote (server : Server) (sent : List ℕ) (wire : List ℕ) (output : List Sent)
    : Type 0 where
  pub wires : wire ≡ server.wire ++ sent
  pub willing : Willing output
  pub used : length server.output ≤ length output + length sent

pub write_back-Wrote :
    (size body : List ℕ) (server : Server)
    → IsString server.msg body
    → Willing server.output
    → length size ≡ 4
    → 4 + length body ≤ length server.output
    → (wire : List ℕ) × (output : List Sent) × (write_back (length body) size server
        ≡ some (again (record server { wire = wire; output = output })))
      × Wrote server (size ++ body) wire output
unfolding write_back
write_back-Wrote size body server h willing four enough =
    let header = write_n_bytes 4 size server.wire server.output in
    let one = write_n_bytes-IsSent 4 size server.wire server.output willing (omega arith) in
    let n = length body in
    let rest = write_n_bytes n body header.wire header.output in
    let two =
      write_n_bytes-IsSent n body header.wire header.output one.willing (omega (arith, one.used)) in
    let text =
      text_of-IsString body server.msg.cells 0
        (λ k lt. let e : 0 + k ≡ k = omega arith in rw e (h.reads k lt)) in
    let same : ltb n n ≡ false = ground arith in
    let whole : take 4 size ≡ size = sym (ap (λ k. take k size) four) ∙ take-length size in
    (
      rest.wire,
      rest.output,
      rw (one.outcome, text, two.outcome) (ground arith),
      record {
        wires =
            two.wire
            ∙ rw (one.wire, take-length body) (rw whole (append_assoc server.wire size body));
        willing = two.willing;
        used = omega (arith, one.used, two.used, four, length-append size body);
      },
    )
