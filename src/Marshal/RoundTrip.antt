-- ===== src/Marshal/RoundTrip.antt =====
-- What `pack` writes, `unpack` reads back.
use c_async_await.Base.{
  ℕ, zero, suc, ◌+◌, ◌*◌, ◌/◌, ◌%◌, ◌≤◌, ◌<◌, ◌≡◌, refl, ◌∙◌, some, List, [], ◌∷◌, ◌==◌,
  if◌then◌else◌, int_max, arith, ◌⊎◌, inl, inr, lt→ltb, le→leb,
}
use c_async_await.Marshal.{
  Memory, store, load, Kind, int32, uint32, pointer, Arg, kind_of, width, va_arg, pack_fields, pack,
  unpack_fields, unpack, header_size,
}

-- The numbers of `w` bytes.
abbrev pub span : ℕ → ℕ
span zero = 1
span (suc w) = 256 * span w

store-frame : (w p n : ℕ) (m : Memory) (q : ℕ) → (q < p) ⊎ (p + w ≤ q) → store w p n m q ≡ m q
unfolding store
store-frame zero p n m q out = refl
store-frame (suc w) p n m q out =
    ground (arith, store-frame w (p + 1) (n / 256) (λ r. if p == r then n % 256 else m r) q)

load-agree :
    (w p : ℕ) (m m' : Memory)
    → ((q : ℕ) → p ≤ q → q < p + w → m q ≡ m' q)
    → load w p m ≡ load w p m'
unfolding load
load-agree zero p m m' agree = refl
load-agree (suc w) p m m' agree = omega (
  arith,
  agree p (omega arith) (omega arith),
  load-agree w (p + 1) m m' (λ q a b. agree q (omega arith) (omega arith)),
)

-- A number that fits is read back.
pub load-store : (w p n : ℕ) (m : Memory) → n < span w → load w p (store w p n m) ≡ n
unfolding load store
load-store zero p n m fits = omega arith
load-store (suc w) p n m fits =
    let m' : Memory = λ q. if p == q then n % 256 else m q in
    let low : store w (p + 1) (n / 256) m' p ≡ n % 256 =
      store-frame w (p + 1) (n / 256) m' p (inl (omega arith)) ∙ ground arith in
    omega (arith, low, load-store w (p + 1) (n / 256) m' (omega arith))

-- Every value fits the type that it is passed with.
abbrev pub Fits : List Arg → Type 0
Fits [] = Unit {0}
Fits ((k, v) ∷ args) = (v < span (width k)) × Fits args

-- The arguments that a format asks for are those that are passed.
abbrev pub Matches : List ℕ → List Arg → Type 0
Matches [] [] = Unit {0}
Matches [] (a ∷ args) = ⊥
Matches (c ∷ fmt) [] = ⊥
Matches (c ∷ fmt) ((k, v) ∷ args) = (kind_of c ≡ some k) × Matches fmt args

abbrev pub total : List Arg → ℕ
total [] = 0
total ((k, v) ∷ args) = width k + total args

width_pos : (k : Kind) → 0 < width k
width_pos int32 = omega arith
width_pos uint32 = omega arith
width_pos pointer = omega arith

va_arg-cons : (k : Kind) (v : ℕ) (args : List Arg) → va_arg k ((k, v) ∷ args) ≡ some (v, args)
unfolding va_arg
va_arg-cons int32 v args = refl
va_arg-cons uint32 v args = refl
va_arg-cons pointer v args = refl

-- The fields written from `ptr` to `end` are read from any memory that agrees there.
record Written (size ptr end : ℕ) (fmt : List ℕ) (args : List Arg) (m m' : Memory) : Type 0 where
  packs : pack_fields size ptr fmt args m ≡ some (m', some end)
  below : (q : ℕ) → q < ptr → m' q ≡ m q
  above : (q : ℕ) → end ≤ q → m' q ≡ m q
  reads :
      (m'' : Memory)
      → ((q : ℕ) → ptr ≤ q → q < end → m'' q ≡ m' q)
      → unpack_fields end ptr fmt m'' ≡ some (some (args, end))

pack_fields-Written :
    (size ptr end : ℕ) (fmt : List ℕ) (args : List Arg) (m : Memory)
    → Matches fmt args
    → Fits args
    → end ≡ ptr + total args
    → end ≤ size
    → size ≤ int_max
    → (m' : Memory) × Written size ptr end fmt args m m'
unfolding pack_fields unpack_fields
pack_fields-Written size ptr end [] [] m match fit e le max = (
  m,
  record {
    packs = ground arith;
    below = λ q lt. refl;
    above = λ q ge. refl;
    reads = λ m'' agree. ground arith;
  },
)
pack_fields-Written size ptr end [] (a ∷ args) m match fit e le max = absurd match
pack_fields-Written size ptr end (c ∷ fmt) [] m match fit e le max = absurd match
pack_fields-Written size ptr end (c ∷ fmt) ((k, v) ∷ args) m match fit e le max =
    let pos = width_pos k in
    let m₁ = store (width k) ptr v m in
    let (m', r) =
      pack_fields-Written size (ptr + width k) end fmt args m₁ match.1 fit.1 (omega arith) le max in
    let inside : end ≡ ptr + width k + total args = omega arith in
    (
      m',
      record {
        packs = ground (arith, match.0, va_arg-cons k v args, r.packs);
        below = λ q lt. r.below q (omega arith) ∙ store-frame (width k) ptr v m q (inl lt);
        above = λ q ge. r.above q ge ∙ store-frame (width k) ptr v m q (inr (omega arith));
        reads = λ m'' agree.
            let rest = r.reads m'' (λ q a b. agree q (omega arith) b) in
            let field : load (width k) ptr m'' ≡ v =
              load-agree (width k) ptr m'' m₁ (λ q a b. agree q a (omega arith) ∙ r.below q b)
              ∙ load-store (width k) ptr v m fit.0 in
            ground (arith, match.0, lt→ltb ptr end (omega arith), rest, field);
      },
    )

-- When the format asks for the arguments' types, each value fits its type and the buffer has room
-- for the header and the fields and is no larger than an `int` counts, `pack` succeeds and returns
-- the number of bytes, nothing behind them is written, and `unpack` with the same format gives the
-- same values and returns the size of the buffer.
pub unpack-pack :
    (size : ℕ) (fmt : List ℕ) (args : List Arg) (m : Memory)
    → Matches fmt args
    → Fits args
    → header_size + total args ≤ size
    → size ≤ int_max
    → (m' : Memory) × (pack size fmt args m ≡ some (m', some (header_size + total args)))
      × (unpack fmt m' ≡ some (some (args, size)))
      × ((q : ℕ) → header_size + total args ≤ q → m' q ≡ m q)
unfolding pack unpack
unpack-pack size fmt args m match fit le max =
    let len = header_size + total args in
    let (m₁, r) = pack_fields-Written size header_size len fmt args m match fit refl le max in
    let m₂ = store 4 0 len m₁ in
    let m₃ = store 4 4 size m₂ in
    let read_len : load 4 0 m₃ ≡ len =
      load-agree 4 0 m₃ m₂ (λ q a b. store-frame 4 4 size m₂ q (inl (omega arith)))
      ∙ load-store 4 0 len m₁ (omega arith) in
    let read_size : load 4 4 m₃ ≡ size = load-store 4 4 size m₂ (omega arith) in
    let fields = r.reads m₃ (λ q a b.
      store-frame 4 4 size m₂ q (inr (omega arith))
      ∙ store-frame 4 0 len m₁ q (inr (omega arith))) in
    (
      m₃,
      rw (le→leb header_size size (omega arith), r.packs),
      ground (arith, read_len, read_size, fields),
      λ q ge.
          store-frame 4 4 size m₂ q (inr (omega arith))
          ∙ (store-frame 4 0 len m₁ q (inr (omega arith)) ∙ r.above q ge),
    )
