-- ===== src/Str/Text.antt =====
-- The text that a string holds: `string_append`, `string_clear` and `string_from_cstr`.
use c_async_await.Base.{
  ℕ, ◌+◌, ◌-◌, ◌*◌, ◌≤◌, ◌<◌, ◌≡◌, ◌⊎◌, inl, inr, refl, ◌&&◌, some, List, [], ◌∷◌, ◌++◌, ltb, leb,
  ◌==◌, if◌then◌else◌, int_max, length, get_elem?, arith, Bool-cases, length-append,
  get_elem?-append_left, get_elem?-append_last,
}
use native.Mathlib.Decide.{dec_lt}
use c_async_await.Str.{
  String, string_init, realloc, reserve_one, string_append, string_from_cstr, string_clear,
}

-- The string has the characters of the text and, if it has memory at all, a zero behind them.
pub record IsString (s : String) (xs : List ℕ) : Type 0 where
  pub long : s.len ≡ length xs
  pub reads : (k : ℕ) → k < length xs → s.cells k ≡ get_elem? xs k
  pub ended : 0 < s.cap → (s.len < s.cap) × (s.cells s.len ≡ some 0)
  pub bare : s.cap ≡ 0 → s.len ≡ 0
  pub sized : s.cap ≤ s.size
  pub small : s.cap ≤ int_max

pub string_init-IsString : IsString string_init []
string_init-IsString = record {
  long = refl;
  reads = λ k lt. absurd (omega arith);
  ended = λ p. absurd (omega arith);
  bare = λ e. refl;
  sized = omega arith;
  small = omega arith;
}

-- The string with a zero at `n`, and that length: what the operations leave in the end.
abbrev pub terminated : String → ℕ → String
terminated s n = record s { cells = λ j. if n == j then some 0 else s.cells j; len = n }

pub terminated-IsString :
    (s : String) (xs : List ℕ) (n : ℕ)
    → n ≡ length xs
    → ((k : ℕ) → k < length xs → s.cells k ≡ get_elem? xs k)
    → n < s.cap
    → s.cap ≤ s.size
    → s.cap ≤ int_max
    → IsString (terminated s n) xs
terminated-IsString s xs n e reads room sized small = record {
  long = e;
  reads = λ k lt. ground (arith, reads k);
  ended = λ p. (room, ground arith);
  bare = λ z. absurd (omega arith);
  sized = sized;
  small = small;
}

-- A character more fits, or the string can grow.
abbrev pub HasRoom : String → Type 0
HasRoom s = (s.len + 2 < s.cap) ⊎ (s.cap * 2 + 10 ≤ int_max)

-- A memory of at least `n` bytes that begins with the text.
pub record Begins (s : String) (xs : List ℕ) (n : ℕ) : Type 0 where
  pub reads : (k : ℕ) → k < length xs → s.cells k ≡ get_elem? xs k
  pub wide : n ≤ s.cap
  pub sized : s.cap ≤ s.size
  pub small : s.cap ≤ int_max

module _ {s : String} {xs : List ℕ} (h : IsString s xs) where
  pub len-le-size : s.len ≤ s.size
  len-le-size = ground (arith, h.ended, h.bare, h.sized)

  pub realloc-Begins : (n : ℕ) → length xs ≤ n → n ≤ int_max → Begins (realloc s n) xs n
  realloc-Begins n le fits = record {
    reads = λ k lt. ground (arith, h.reads k lt, len-le-size, h.long);
    wide = omega arith;
    sized = omega arith;
    small = fits;
  }

  reserve_one-Begins :
      HasRoom s
      → (s' : String) × (reserve_one s ≡ some s') × Begins s' xs (s.len + 3) × (s'.len ≡ s.len)
  unfolding reserve_one
  reserve_one-Begins room = elim (Bool-cases (leb s.cap (s.len + 2))) [
    | inl full ↦ (
      realloc s (s.cap * 2 + 10),
      ground (arith, h.ended, h.bare, h.small),
      (let b =
            realloc-Begins (s.cap * 2 + 10) (ground (arith, h.ended, h.bare, h.long))
              (ground arith) in
          record {
            reads = b.reads;
            wide = ground (arith, h.ended, h.bare);
            sized = b.sized;
            small = b.small;
          }),
      refl,
    )
    | inr free ↦ (
      s,
      ground (arith, h.small),
      record { reads = h.reads; wide = ground arith; sized = h.sized; small = h.small },
      refl,
    )
  ]

  -- On a string that holds a text, with room for one more character or a capacity that can be
  -- doubled within an `int`, `string_append` succeeds and the string holds the text with the
  -- character behind it, a zero after it.
  pub string_append-IsString :
      (c : ℕ)
      → HasRoom s
      → (s' : String) × (string_append s c ≡ some s') × IsString s' (xs ++ c ∷ [])
  unfolding string_append
  string_append-IsString c room =
      let (s₁, reserved, b, len) = reserve_one-Begins room in
      let s₂ : String = record s₁ { cells = λ j. if s.len == j then some c else s₁.cells j } in
      let long = length-append xs (c ∷ []) in
      (
        terminated s₂ (s.len + 1),
        ground (arith, reserved, len, b.wide, b.sized),
        terminated-IsString s₂ (xs ++ c ∷ []) (s.len + 1) (omega (arith, long, h.long))
            (λ k lt. elim (dec_lt k (length xs)) [
              | yes p ↦ ground (arith, b.reads k p, get_elem?-append_left xs (c ∷ []) k p, h.long)
              | no p ↦
                  let e : k ≡ length xs = omega (arith, long) in
                  rw e (ground (arith, get_elem?-append_last xs c, h.long))
            ])
            (omega (arith, b.wide)) b.sized b.small,
      )

  pub string_clear-IsString :
      (s' : String) × (string_clear s ≡ some s')
      × IsString s' []
      × (s'.cap ≡ s.cap)
      × (s'.size ≡ s.size)
  unfolding string_clear
  string_clear-IsString = elim (Bool-cases (s.cap == 0)) [
    | inl none_there ↦ (
      record s { len = 0 },
      ground arith,
      record {
        long = refl;
        reads = λ k lt. absurd (omega arith);
        ended = λ p. absurd (ground arith);
        bare = λ e. refl;
        sized = h.sized;
        small = h.small;
      },
      refl,
      refl,
    )
    | inr some_there ↦ (
      terminated s 0,
      ground (arith, h.sized),
      terminated-IsString s [] 0 refl (λ k lt. absurd (omega arith)) (ground arith) h.sized h.small,
      refl,
      refl,
    )
  ]

-- What the string held before is lost.
pub string_from_cstr-IsString :
    (s : String) (cstr : List ℕ)
    → length cstr + 1 ≤ int_max
    → (s' : String) × (string_from_cstr s cstr ≡ some s') × IsString s' cstr
unfolding string_from_cstr
string_from_cstr-IsString s cstr fits =
    let n = length cstr in
    let r = realloc s (n + 1) in
    let s₁ : String = record r {
      cells = λ j. if leb 0 j && ltb j (0 + n) then get_elem? cstr (0 + (j - 0)) else r.cells j;
    } in
    (
      terminated s₁ n,
      ground arith,
      terminated-IsString s₁ cstr n refl
          (λ k lt. let e : 0 + (k - 0) ≡ k = omega arith in rw e (ground arith)) (omega arith)
          (omega arith) fits,
    )
