-- ===== src/Echo/Rounds.antt =====
-- A round of the loop of `read_n_bytes`.
use c_async_await.Base.{
  ℕ, suc, ◌+◌, ◌-◌, ◌≤◌, ◌<◌, ◌≡◌, ◌∙◌, sym, ap, some, List, ◌++◌, length, take, drop, arith,
  length-append, length-take_le, length-drop, drop-drop, take-append, drop-append, take-take-drop,
  take-append-drop, take-take, drop-take,
}
use mathlib.Core.List.{append_assoc}
use c_async_await.Echo.{Received, returned, Buffer, write_amount, read_rounds}
use c_async_await.Echo.Stream.{unread, IsBuffer, stream, ending, Fits, pending, Refilled, Refused}

-- A round copies the first bytes that are pending.
record Copied (buf : Buffer) (w : ℕ) : Type 0 where
  takes : take w (drop buf.start buf.buffer) ≡ take w (unread buf)
  leaves : unread (record buf { start = buf.start + w }) ≡ drop w (unread buf)
  enough : w ≤ length (unread buf)

copied : (buf : Buffer) (w : ℕ) → IsBuffer buf → w ≤ buf.end - buf.start → Copied buf w
copied buf w b le =
    let held = drop buf.start buf.buffer in
    let m = buf.end - (buf.start + w) in
    let e : buf.end - buf.start ≡ w + m = omega (arith, b.ordered) in
    record {
      takes = sym (take-take w (buf.end - buf.start) held le);
      leaves = sym (
          ap (λ k. drop w (take k held)) e
          ∙ (drop-take w m held ∙ ap (take m) (drop-drop buf.start w buf.buffer)));
      enough = omega (
        arith,
        length-take_le (buf.end - buf.start) held
            (omega (arith, b.inside, length-drop buf.start buf.buffer)),
      );
    }

-- A round of the loop, where there is something to read.
pub record Round (fuel n amt : ℕ) (out : List ℕ) (buf : Buffer) (input : List Received)
    : Type 0 where
  pub w : ℕ
  pub buf' : Buffer
  pub input' : List Received
  pub runs :
      read_rounds (suc fuel) n amt out buf input
      ≡ read_rounds fuel n (amt + w) (out ++ take w (pending buf input)) buf' input'
  pub more : 0 < w
  pub bound : w ≤ n - amt
  pub enough : w ≤ length (pending buf input)
  pub good : IsBuffer buf'
  pub fits : Fits input'
  pub leaves : pending buf' input' ≡ drop w (pending buf input)
  pub same_end : ending input' ≡ ending input

pub round :
    (fuel n amt : ℕ) (out : List ℕ) {buf : Buffer} {input : List Received} {buf' : Buffer}
    {input' : List Received}
    → amt < n
    → Refilled buf input buf' input'
    → Round fuel n amt out buf input
unfolding read_rounds
round fuel n amt out {buf} {input} {buf'} {input'} lt r =
    let w = write_amount (n - amt) buf' in
    let narrow : w ≤ buf'.end - buf'.start = ground arith in
    let c = copied buf' w r.good narrow in
    let long = length-append (unread buf') (stream input') in
    let taken : take w (drop buf'.start buf'.buffer) ≡ take w (pending buf input) =
      c.takes ∙ (sym (take-append w (unread buf') (stream input') c.enough) ∙ ap (take w) r.same) in
    record {
      w = w;
      buf' = record buf' { start = buf'.start + w };
      input' = input';
      runs = ground (arith, r.runs, r.some_left, taken);
      more = ground (arith, r.some_left);
      bound = ground arith;
      enough = omega (arith, long, ap length r.same, c.enough);
      good = record { ordered = omega (arith, r.some_left); inside = r.good.inside };
      fits = r.fits;
      leaves =
          ap (◌++ stream input') c.leaves
          ∙ (sym (drop-append w (unread buf') (stream input') c.enough) ∙ ap (drop w) r.same);
      same_end = r.same_end;
    }

pub read_rounds-done :
    (fuel n amt : ℕ) (out : List ℕ) (buf : Buffer) (input : List Received)
    → n ≤ amt
    → read_rounds (suc fuel) n amt out buf input
      ≡ some (record { outcome = returned amt; out = out; buf = buf; input = input })
unfolding read_rounds
read_rounds-done fuel n amt out buf input le = ground arith

pub read_rounds_stopped :
    (fuel n amt : ℕ) (out : List ℕ) {buf : Buffer} {input : List Received}
    → amt < n
    → (r : Refused buf input)
    → read_rounds (suc fuel) n amt out buf input
      ≡ some (record { outcome = ending input; out = out; buf = buf; input = r.later })
unfolding read_rounds
read_rounds_stopped fuel n amt out lt r = ground (arith, r.runs)

-- Two copies, one behind the other, are one.
module _ (w m k : ℕ) (all later : List ℕ) (e : k ≡ w + m) (leaves : later ≡ drop w all) where
  pub copies-take : (out : List ℕ) → (out ++ take w all) ++ take m later ≡ out ++ take k all
  copies-take out =
      rw (e, leaves)
        (append_assoc out (take w all) (take m (drop w all))
          ∙ ap (out ++◌) (take-take-drop w m all))

  pub copies-drop : drop m later ≡ drop k all
  copies-drop = rw (e, leaves) (drop-drop w m all)

pub copies-all :
    (w : ℕ) (all later out : List ℕ)
    → later ≡ drop w all
    → (out ++ take w all) ++ later ≡ out ++ all
copies-all w all later out leaves =
    rw leaves (append_assoc out (take w all) (drop w all) ∙ ap (out ++◌) (take-append-drop w all))
