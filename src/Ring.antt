-- ===== src/Ring.antt =====
-- The growing circular queue of src/storage.h, which both schedulers keep their tasks in.
-- The macros work on any struct with `elems`, `start`, `end` and `cap`.

pub mod Refine
pub mod Push
use c_async_await.Base.{
  ℕ, ◌+◌, ◌-◌, ◌*◌, ◌%◌, ◌&&◌, Option, none, some, ltb, leb, ◌==◌, if◌then◌else◌, ◌>>=◌, ◌>>◌,
  guard, int_max, not,
}

-- `elems` is the memory from the array's start on; a cell that was never written is `none`.
pub record Ring {ℓ} (A : Type ℓ) : Type ℓ where
  pub elems : ℕ → Option A
  pub start : ℕ
  pub end : ℕ
  pub cap : ℕ

module _ {ℓ} {A : Type ℓ} where
  -- `(Queue){0}`
  abbrev pub empty : Ring A
  empty = record { elems = λ _. none; start = 0; end = 0; cap = 0 }

  abbrev pub write : (ℕ → Option A) → ℕ → A → ℕ → Option A
  write f i x j = if i == j then some x else f j

  -- `realloc`: the cells below `cap` are kept, those above are indeterminate.
  abbrev pub realloc : (ℕ → Option A) → ℕ → ℕ → Option A
  realloc f cap j = if ltb j cap then f j else none

  -- `memmove(elems + to, elems, n)`
  abbrev pub memmove : (ℕ → Option A) → ℕ → ℕ → ℕ → Option A
  memmove f to n j = if leb to j && ltb j (to + n) then f (j - to) else f j

abbrev pub next_index : ℕ → ℕ → ℕ
next_index x cap = (x + 1) % cap

abbrev pub prev_index : ℕ → ℕ → ℕ
prev_index x cap = if x == 0 then cap - 1 else x - 1

module _ {ℓ} {A : Type ℓ} where
  -- The first guard is the signed overflow of `cap * 2 + 10`, the second the macro's assertion.
  unfoldable pub expand : Ring A → Option (Ring A)
  expand q =
      let new_cap = q.cap * 2 + 10 in
      do
        guard (leb new_cap int_max)
        guard (leb (q.cap + q.end) new_cap)
        some (
            if ltb q.end q.start
            then record q {
              elems = memmove (realloc q.elems q.cap) q.cap q.end;
              end = (q.cap + q.end) % new_cap;
              cap = new_cap;
            }
            else record q { elems = realloc q.elems q.cap; cap = new_cap })

  -- `if (cap == 0) __queue_expand(q)`
  unfoldable pub reserve_first : Ring A → Option (Ring A)
  reserve_first q = if q.cap == 0 then expand q else some q

  unfoldable pub push_back : Ring A → A → Option (Ring A)
  unfolding expand reserve_first
  push_back q x = do
    q₁ ← reserve_first q
    q₂ ← if next_index q₁.end q₁.cap == q₁.start then expand q₁ else some q₁
    some (record q₂ { elems = write q₂.elems q₂.end x; end = next_index q₂.end q₂.cap })

  unfoldable pub push_front : Ring A → A → Option (Ring A)
  unfolding expand reserve_first
  push_front q x = do
    q₁ ← reserve_first q
    q₂ ← if prev_index q₁.start q₁.cap == q₁.end then expand q₁ else some q₁
    let s = prev_index q₂.start q₂.cap
    some (record q₂ { elems = write q₂.elems s x; start = s })

  -- A read of an indeterminate cell is a fault.
  unfoldable pub pop_back : Ring A → Option (A × Ring A)
  pop_back q = do
    guard (not (q.end == q.start))
    let e = prev_index q.end q.cap
    x ← q.elems e
    some (x, record q { end = e })

  unfoldable pub pop_front : Ring A → Option (A × Ring A)
  pop_front q = do
    guard (not (q.start == q.end))
    x ← q.elems q.start
    some (x, record q { start = next_index q.start q.cap })

  unfoldable pub peek_front : Ring A → Option A
  peek_front q = do guard (not (q.start == q.end)); q.elems q.start
