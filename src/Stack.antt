-- ===== src/Stack.antt =====
-- The stack macros of src/storage.h, on a struct with `elems`, `len` and `cap`.
pub mod Order
use c_async_await.Base.{
  ℕ, ◌+◌, ◌-◌, ◌*◌, Bool, true, false, Option, none, some, ltb, leb, ◌==◌, ◌&&◌, if◌then◌else◌,
  ◌>>=◌, ◌>>◌, guard, int_max,
}

-- `elems` has `cap` cells; one that was never written is `none`.
pub record Stack (A : Type 0) : Type 0 where
  pub elems : ℕ → Option A
  pub len : ℕ
  pub cap : ℕ

module _ {A : Type 0} where
  -- `cap = cap * 2 + 10` with `realloc`, when the cells are all in use.
  unfoldable pub stack_reserve : Stack A → Option (Stack A)
  stack_reserve s = elim (s.len == s.cap) [
    | true ↦ do
      let cap = s.cap * 2 + 10
      guard (leb cap int_max)
      some (record s {
        elems = λ i. if ltb i s.cap && ltb i cap then s.elems i else none;
        cap = cap;
      })
    | false ↦ some s
  ]

  unfoldable pub stack_push : Stack A → A → Option (Stack A)
  unfolding stack_reserve
  stack_push s elem = do
    s₁ ← stack_reserve s
    guard (ltb s₁.len s₁.cap)
    some
        (record s₁ { elems = λ i. if s₁.len == i then some elem else s₁.elems i; len = s₁.len + 1 })

  unfoldable pub stack_pop : Stack A → Option (A × Stack A)
  stack_pop s = do
    guard (ltb 0 s.len)
    out ← s.elems (s.len - 1)
    some (out, record s { len = s.len - 1 })

  unfoldable pub stack_peek : Stack A → Option A
  stack_peek s = do guard (ltb 0 s.len); s.elems (s.len - 1)
