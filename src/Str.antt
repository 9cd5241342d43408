-- ===== src/Str.antt =====
-- The strings of the example programs, examples/str.c: growing strings that end with a zero byte,
-- and references to parts of them.
pub mod Text
pub mod Join
pub mod Cut
pub mod Trim
pub mod Resize
use c_async_await.Base.{
  ℕ, zero, suc, ◌+◌, ◌-◌, ◌*◌, Bool, true, false, ◌&&◌, not, Option, none, some, List, [], ◌∷◌, ltb,
  leb, ◌==◌, if◌then◌else◌, ◌>>=◌, ◌>>◌, guard, int_max, length, get_elem?,
}

-- `cells` is the memory that `str` points to, of which `size` bytes are allocated; a byte that was
-- never written is `none`. `size` is 0 while `str` is NULL.
pub record String : Type 0 where
  pub cells : ℕ → Option ℕ
  pub size : ℕ
  pub len : ℕ
  pub cap : ℕ

-- `str` points to the byte `start` of such a memory.
pub record StringRef : Type 0 where
  pub cells : ℕ → Option ℕ
  pub size : ℕ
  pub start : ℕ
  pub len : ℕ

-- `(String){0}`, what `string_init` and `string_deinit` leave.
abbrev pub string_init : String
string_init = record { cells = λ _. none; size = 0; len = 0; cap = 0 }

-- `str[i] = c`
abbrev pub put_char : String → ℕ → ℕ → Option String
put_char s i c =
    guard (ltb i s.size) >> some (record s { cells = λ j. if i == j then some c else s.cells j })

-- `str = realloc(str, n); cap = n`
abbrev pub realloc : String → ℕ → String
realloc s n = record s {
  cells = λ j. if ltb j s.size && ltb j n then s.cells j else none;
  size = n;
  cap = n;
}

-- `memcpy(str + off, src + start, n)`, where `src` has `src_size` bytes.
abbrev pub copy_in : String → ℕ → (ℕ → Option ℕ) → ℕ → ℕ → ℕ → Option String
copy_in s off src src_size start n = do
  guard (leb (start + n) src_size)
  guard (leb (off + n) s.size)
  some (record s {
    cells = λ j. if leb off j && ltb j (off + n) then src (start + (j - off)) else s.cells j;
  })

-- Room for one more character and the zero behind it.
unfoldable pub reserve_one : String → Option String
reserve_one s =
    guard (leb (s.len + 2) int_max)
    >> (if leb s.cap (s.len + 2)
        then (guard (leb (s.cap * 2 + 10) int_max) >> some (realloc s (s.cap * 2 + 10)))
        else some s)

unfoldable pub string_append : String → ℕ → Option String
unfolding reserve_one
string_append s c = do
  s₁ ← reserve_one s
  s₂ ← put_char s₁ s.len c
  s₃ ← put_char s₂ (s.len + 1) 0
  some (record s₃ { len = s.len + 1 })

-- A C string is the list of its bytes, without the zero at its end.
unfoldable pub string_from_cstr : String → List ℕ → Option String
string_from_cstr out cstr = do
  let len = length cstr
  guard (leb (len + 1) int_max)
  s ← copy_in (realloc out (len + 1)) 0 (get_elem? cstr) len 0 len
  s' ← put_char s len 0
  some (record s' { len = len })

unfoldable pub string_clear : String → Option String
string_clear s = let s' = record s { len = 0 } in if s.cap == 0 then some s' else put_char s' 0 0

-- `while (need >= new_cap) new_cap = new_cap * 2 + 10;`
unfoldable pub fit_cap : ℕ → ℕ → ℕ → Option ℕ
fit_cap zero need new_cap = none
fit_cap (suc fuel) need new_cap =
    let rest = fit_cap fuel need (new_cap * 2 + 10) in
    if leb new_cap need then (guard (leb (new_cap * 2 + 10) int_max) >> rest) else some new_cap

abbrev pub grown : String → ℕ → String
grown s new_cap = if new_cap == s.cap then s else realloc s new_cap

-- Two strings that are not the same object.
unfoldable pub string_clone : ℕ → String → String → Option String
unfolding fit_cap
string_clone fuel src dst = do
  guard (leb (src.len + 2) int_max)
  new_cap ← fit_cap fuel (src.len + 2) dst.cap
  s ← copy_in (grown dst new_cap) 0 src.cells src.size 0 (src.len + 1)
  some (record s { len = src.len })

abbrev pub string_ref : String → StringRef
string_ref s = record { cells = s.cells; size = s.size; start = 0; len = s.len }

-- A length that is no `int` is a fault.
abbrev pub string_ref_from_cstr : List ℕ → Option StringRef
string_ref_from_cstr cstr = do
  guard (leb (length cstr) int_max)
  some (record { cells = get_elem? cstr; size = length cstr; start = 0; len = length cstr })

-- `ref.str[i]`
abbrev pub char_at : StringRef → ℕ → Option ℕ
char_at ref i = guard (ltb (ref.start + i) ref.size) >> ref.cells (ref.start + i)

-- The loop of `string_ref_clone`, with `left` rounds to go from `i` on.
unfoldable pub append_from : ℕ → ℕ → StringRef → String → Option String
unfolding string_append
append_from zero i ref out = some out
append_from (suc left) i ref out = do
  c ← char_at ref i
  out' ← string_append out c
  append_from left (i + 1) ref out'

unfoldable pub string_ref_clone : StringRef → String → Option String
unfolding append_from
string_ref_clone ref out = append_from ref.len 0 ref out

unfoldable pub string_concat : ℕ → String → StringRef → Option String
unfolding fit_cap
string_concat fuel a b = do
  let need = a.len + 1 + (b.len + 1)
  guard (leb need int_max)
  new_cap ← fit_cap fuel need a.cap
  s ← copy_in (grown a new_cap) a.len b.cells b.size b.start b.len
  s' ← put_char s (a.len + b.len) 0
  some (record s' { len = a.len + b.len })

abbrev pub string_concat_with_cstr : ℕ → String → List ℕ → Option String
string_concat_with_cstr fuel a cstr = do ref ← string_ref_from_cstr cstr; string_concat fuel a ref

-- `for (; i < len; i++) if (!test(str[i])) break;`, with `left` rounds to go.
unfoldable pub skip : (ℕ → Bool) → ℕ → ℕ → StringRef → Option ℕ
skip test zero i ref = some i
skip test (suc left) i ref = do
  c ← char_at ref i
  elim (test c) [ true ↦ skip test left (i + 1) ref | false ↦ some i ]

-- `str = &str[i]; len -= i`
abbrev pub advance : StringRef → ℕ → StringRef
advance ref i = record ref { start = ref.start + i; len = ref.len - i }

unfoldable pub string_ref_trim_left : StringRef → ℕ → Option (ℕ × StringRef)
unfolding skip
string_ref_trim_left ref c = do i ← skip (λ x. x == c) ref.len 0 ref; some (i, advance ref i)

-- The loop of `string_ref_trim_left_ws`; `sum` is what was trimmed so far. C leaves the order of the
-- two calls open: here the spaces go first.
unfoldable pub trim_rounds : ℕ → ℕ → StringRef → Option (ℕ × StringRef)
unfolding string_ref_trim_left
trim_rounds zero sum ref = none
trim_rounds (suc fuel) sum ref = do
  (d₁, ref₁) ← string_ref_trim_left ref b' '
  (d₂, ref₂) ← string_ref_trim_left ref₁ b'\t'
  elim (d₁ + d₂ == 0) [
    | true ↦ some (sum + (d₁ + d₂), ref₂)
    | false ↦ trim_rounds fuel (sum + (d₁ + d₂)) ref₂
  ]

unfoldable pub string_ref_trim_left_ws : ℕ → StringRef → Option (ℕ × StringRef)
unfolding trim_rounds
string_ref_trim_left_ws fuel ref = trim_rounds fuel 0 ref

-- The result, the token and what is left of the original. `isspace` is that of ctype.h.
unfoldable pub string_ref_split_ws_once :
    (ℕ → Bool) → StringRef → Option (Bool × StringRef × StringRef)
unfolding skip
string_ref_split_ws_once isspace original = do
  start ← skip isspace original.len 0 original
  end ← skip (λ c. not (isspace c)) (original.len - start) start original
  let len = end - start
  let token = record original { start = original.start + start; len = len }
  some (not (len == 0), token, advance original end)

unfoldable pub string_substr : String → ℕ → ℕ → Option StringRef
string_substr s start len = do
  guard (ltb start s.len && ltb (start + len) s.len)
  some (record { cells = s.cells; size = s.size; start = start; len = len })

-- `cap` is not written.
unfoldable pub string_reserve : String → ℕ → Option String
string_reserve s cap =
    guard (leb (cap + 1) int_max)
    >> some (if leb (cap + 1) s.cap then s else record (realloc s (cap + 1)) { cap = s.cap })

-- `memset(str + len, pad_char, cap)`
abbrev pub fill : String → ℕ → Option String
fill s pad_char =
    guard (leb (s.len + s.cap) s.size)
    >> some (record s {
      cells = λ j. if leb s.len j && ltb j (s.len + s.cap) then some pad_char else s.cells j;
    })

unfoldable pub string_resize : String → ℕ → ℕ → Option String
string_resize s new_size pad_char =
    if s.len == new_size
    then some s
    else if ltb new_size s.len
    then (let s' = record s { len = new_size } in
        if s.cap == 0 then some s' else put_char s' new_size 0)
    else do
      guard (leb (new_size + 1) int_max)
      s₁ ← fill (realloc s (new_size + 1)) pad_char
      put_char (record s₁ { len = new_size }) new_size 0
