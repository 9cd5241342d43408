-- ===== src/Epoll/Bytes.antt =====
-- The bytes that a client's loops take from its buffer.
use c_async_await.Base.{
  ℕ, zero, suc, ◌+◌, ◌-◌, ◌*◌, ◌≤◌, ◌<◌, ◌≡◌, refl, inl, inr, ◌∙◌, sym, ap, Bool, true, false, some,
  List, [], ◌∷◌, ◌++◌, leb, int_max, length, get_elem?, set, take, drop, arith, Bool-cases,
  get_elem?-drop, drop-drop, length-set, length-append, length-drop,
}
use mathlib.Core.List.{append_assoc}
use c_async_await.Epoll.{Client, drained, read_size, read_text}
use c_async_await.Str.Text.{IsString, string_append-IsString}

abbrev pub unread : Client → List ℕ
unread c = take (c.read_end - c.read_ptr) (drop c.read_ptr c.read_buffer)

pub record IsBuffered (c : Client) : Type 0 where
  pub ordered : c.read_ptr ≤ c.read_end
  pub inside : c.read_end ≤ length c.read_buffer
  pub four : length c.size ≡ 4

-- The first byte and the others.
first_byte :
    (xs : List ℕ) (n : ℕ)
    → 0 < length xs
    → (x : ℕ) × (get_elem? xs 0 ≡ some x) × (take (suc n) xs ≡ x ∷ take n (drop 1 xs))
first_byte [] n lt = absurd (omega arith)
first_byte (x ∷ xs) n lt = (x, refl, refl)

next_byte :
    (p e : ℕ) (xs : List ℕ)
    → p < e
    → e ≤ length xs
    → (x : ℕ) × (get_elem? xs p ≡ some x)
      × (take (e - p) (drop p xs) ≡ x ∷ take (e - (p + 1)) (drop (p + 1) xs))
next_byte p e xs lt le =
    let (x, at, all) = first_byte (drop p xs) (e - (p + 1)) (omega (arith, length-drop p xs)) in
    let n : e - p ≡ suc (e - (p + 1)) = omega arith in
    let z : p + 0 ≡ p = omega arith in
    (
      x,
      (rw z at (sym (get_elem?-drop p xs 0) ∙ at)),
      ap (λ k. take k (drop p xs)) n
          ∙ (all ∙ ap (λ ys. x ∷ take (e - (p + 1)) ys) (drop-drop p 1 xs)),
    )

take-set : (xs : List ℕ) (k x : ℕ) → k < length xs → take (k + 1) (set xs k x) ≡ take k xs ++ x ∷ []
take-set [] k x lt = absurd (omega arith)
take-set (y ∷ xs) zero x lt = refl
take-set (y ∷ xs) (suc k) x lt =
    let e : suc k + 1 ≡ suc (k + 1) = omega arith in
    rw e (ap (y ∷◌) (take-set xs k x (omega arith)))

-- What the two loops leave as it was.
pub record Reads (c c' : Client) (complete : Bool) : Type 0 where
  pub buffered : IsBuffered c'
  pub empty : complete ≡ false → unread c' ≡ []
  pub same_mode : c'.mode ≡ c.mode
  pub processed : c'.bytes_processed ≡ c.bytes_processed

take-empty : (n : ℕ) (xs : List ℕ) → n ≡ 0 → take n xs ≡ []
take-empty n xs e = rw e refl

unread-nil : (c : Client) → c.read_end ≤ c.read_ptr → unread c ≡ []
unread-nil c le = take-empty (c.read_end - c.read_ptr) (drop c.read_ptr c.read_buffer) (omega arith)

drained-Reads : (c : Client) → IsBuffered c → Reads c (drained c) false
drained-Reads c b = record {
  buffered = record { ordered = omega arith; inside = omega arith; four = b.four };
  empty = λ e. refl;
  same_mode = refl;
  processed = refl;
}

here-Reads : (c : Client) → IsBuffered c → Reads c c true
here-Reads c b = record {
  buffered = b;
  empty = λ e. ground arith;
  same_mode = refl;
  processed = refl;
}

-- One byte moves from the buffer to what was read.
moved :
    (before rest : List ℕ) {after all : List ℕ} {x : ℕ}
    → after ≡ before ++ x ∷ []
    → all ≡ x ∷ rest
    → after ++ rest ≡ before ++ all
moved before rest {x = x} e e' = rw (e, e') (append_assoc before (x ∷ []) rest)

pub record SizeRead (c c' : Client) (complete : Bool) : Type 0 where
  pub reads : Reads c c' complete
  pub same : take c'.size_ptr c'.size ++ unread c' ≡ take c.size_ptr c.size ++ unread c
  pub all : complete ≡ true → c'.size_ptr ≡ 4
  pub few : c'.size_ptr ≤ 4
  pub same_msg : c'.msg ≡ c.msg
  pub same_ptr : c'.msg_ptr ≡ c.msg_ptr
  pub shorter : length (unread c') ≤ length (unread c)

pub read_size-SizeRead :
    (left : ℕ) (c : Client)
    → IsBuffered c
    → c.size_ptr + left ≡ 4
    → (complete : Bool) × (c' : Client) × (read_size left c ≡ some (complete, c'))
      × SizeRead c c' complete
unfolding read_size
read_size-SizeRead zero c b total = (
  true,
  c,
  refl,
  record {
    reads = here-Reads c b;
    same = refl;
    all = λ e. omega arith;
    few = omega arith;
    same_msg = refl;
    same_ptr = refl;
    shorter = omega arith;
  },
)
read_size-SizeRead (suc left) c b total = elim (Bool-cases (leb c.read_end c.read_ptr)) [
  | inl out ↦ (
    false,
    drained c,
    rw (read_size, out) refl,
    record {
      reads = drained-Reads c b;
      same = ap (take c.size_ptr c.size ++◌) (sym (unread-nil c (ground arith)));
      all = λ e. ground arith;
      few = omega arith;
      same_msg = refl;
      same_ptr = refl;
      shorter = omega arith;
    },
  )
  | inr more ↦
      let (x, at, all) = next_byte c.read_ptr c.read_end c.read_buffer (ground arith) b.inside in
      let c₁ : Client = record c {
        size = set c.size c.size_ptr x;
        read_ptr = c.read_ptr + 1;
        size_ptr = c.size_ptr + 1;
      } in
      let b₁ : IsBuffered c₁ = record {
        ordered = ground arith;
        inside = b.inside;
        four = length-set c.size c.size_ptr x ∙ b.four;
      } in
      let (complete, c', runs, r) = read_size-SizeRead left c₁ b₁ (omega arith) in
      let grown = take-set c.size c.size_ptr x (omega (arith, b.four)) in
      (
        complete,
        c',
        rw (read_size, more, at) runs,
        record {
          reads = record {
            buffered = r.reads.buffered;
            empty = r.reads.empty;
            same_mode = r.reads.same_mode;
            processed = r.reads.processed;
          };
          same = r.same ∙ moved (take c.size_ptr c.size) (unread c₁) grown all;
          all = r.all;
          few = r.few;
          same_msg = r.same_msg;
          same_ptr = r.same_ptr;
          shorter = omega (arith, r.shorter, ap length all);
        },
      )
]

pub record TextRead (c c' : Client) (xs : List ℕ) (left : ℕ) (complete : Bool) : Type 0 where
  pub reads : Reads c c' complete
  pub text : List ℕ
  pub holds : IsString c'.msg text
  pub same : text ++ unread c' ≡ xs ++ unread c
  pub all : complete ≡ true → length text ≡ length xs + left
  pub counted : c'.msg_ptr + length xs ≡ c.msg_ptr + length text
  pub same_size : c'.size ≡ c.size
  pub same_size_ptr : c'.size_ptr ≡ c.size_ptr
  pub bound : length text ≤ length xs + left

pub read_text-TextRead :
    (left : ℕ) (c : Client) (xs : List ℕ)
    → IsBuffered c
    → IsString c.msg xs
    → (length xs + length (unread c) + 2) * 2 + 10 ≤ int_max
    → (complete : Bool) × (c' : Client) × (read_text left c ≡ some (complete, c'))
      × TextRead c c' xs left complete
unfolding read_text
read_text-TextRead zero c xs b h small = (
  true,
  c,
  refl,
  record {
    reads = here-Reads c b;
    text = xs;
    holds = h;
    same = refl;
    all = λ e. omega arith;
    counted = refl;
    same_size = refl;
    same_size_ptr = refl;
    bound = omega arith;
  },
)
read_text-TextRead (suc left) c xs b h small = elim (Bool-cases (leb c.read_end c.read_ptr)) [
  | inl out ↦ (
    false,
    drained c,
    rw (read_text, out) refl,
    record {
      reads = drained-Reads c b;
      text = xs;
      holds = h;
      same = ap (xs ++◌) (sym (unread-nil c (ground arith)));
      all = λ e. ground arith;
      counted = refl;
      same_size = refl;
      same_size_ptr = refl;
      bound = omega arith;
    },
  )
  | inr more ↦
      let (x, at, all) = next_byte c.read_ptr c.read_end c.read_buffer (ground arith) b.inside in
      let (msg, appended, hm) = string_append-IsString h x (ground (arith, h.long)) in
      let c₁ : Client = record c {
        msg = msg;
        read_ptr = c.read_ptr + 1;
        msg_ptr = c.msg_ptr + 1;
      } in
      let b₁ : IsBuffered c₁ = record {
        ordered = ground arith;
        inside = b.inside;
        four = b.four;
      } in
      let long = length-append xs (x ∷ []) in
      let (complete, c', runs, r) =
        read_text-TextRead left c₁ (xs ++ x ∷ []) b₁ hm (omega (arith, long, ap length all)) in
      (
        complete,
        c',
        rw (read_text, more, at, appended) runs,
        record {
          reads = record {
            buffered = r.reads.buffered;
            empty = r.reads.empty;
            same_mode = r.reads.same_mode;
            processed = r.reads.processed;
          };
          text = r.text;
          holds = r.holds;
          same = r.same ∙ moved xs (unread c₁) refl all;
          all = λ e. omega (arith, r.all e, long);
          counted = omega (arith, r.counted, long);
          same_size = r.same_size;
          same_size_ptr = r.same_size_ptr;
          bound = omega (arith, r.bound, long);
        },
      )
]
