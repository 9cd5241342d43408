-- ===== src/Stack/Order.antt =====
-- A stack gives back what was pushed last.
use c_async_await.Base.{
  ℕ, ◌+◌, ◌-◌, ◌*◌, ◌≤◌, ◌<◌, ◌≡◌, inl, inr, refl, ◌∙◌, true, none, some, List, [], ◌∷◌, ◌++◌, ◌==◌,
  ltb, ◌&&◌, if◌then◌else◌, int_max, length, get_elem?, arith, Bool-cases, length-append,
  get_elem?-append_left, get_elem?-append_last,
}
use native.Mathlib.Decide.{dec_lt}
use c_async_await.Stack.{Stack, stack_reserve, stack_push, stack_pop, stack_peek}

-- The cells hold the list, from the bottom up.
pub record Holds {A : Type 0} (s : Stack A) (xs : List A) : Type 0 where
  pub long : s.len ≡ length xs
  pub room : s.len ≤ s.cap
  pub small : s.cap ≤ int_max
  pub cells : (i : ℕ) → i < length xs → s.elems i ≡ get_elem? xs i

module _ {A : Type 0} {s : Stack A} {xs : List A} (h : Holds s xs) where
  stack_reserve-Holds :
      length xs * 2 + 10 ≤ int_max
      → (s' : Stack A) × (stack_reserve s ≡ some s') × Holds s' xs × (s'.len < s'.cap)
  unfolding stack_reserve
  stack_reserve-Holds fits = elim (Bool-cases (s.len == s.cap)) [
    | inl full ↦ (
      record s {
        elems = λ i. if ltb i s.cap && ltb i (s.cap * 2 + 10) then s.elems i else none;
        cap = s.cap * 2 + 10;
      },
      ground (arith, h.long),
      record {
        long = h.long;
        room = ground (arith, h.room);
        small = ground (arith, h.long);
        cells = λ i lt. ground (arith, h.cells i lt, h.long, h.room);
      },
      ground (arith, h.room),
    )
    | inr free ↦ (s, ground arith, h, ground (arith, h.room))
  ]

  pub stack_push-Holds :
      (x : A)
      → length xs * 2 + 10 ≤ int_max
      → (s' : Stack A) × (stack_push s x ≡ some s') × Holds s' (xs ++ x ∷ [])
  unfolding stack_push
  stack_push-Holds x fits =
      let (s₁, reserved, h₁, room) = stack_reserve-Holds fits in
      let long = length-append xs (x ∷ []) in
      (
        record s₁ { elems = λ i. if s₁.len == i then some x else s₁.elems i; len = s₁.len + 1 },
        ground (arith, reserved, room),
        record {
          long = omega (arith, long, h₁.long);
          room = omega (arith, room);
          small = h₁.small;
          cells = λ i lt. elim (dec_lt i (length xs)) [
            | yes p ↦ ground (arith, h₁.cells i p, get_elem?-append_left xs (x ∷ []) i p, h₁.long)
            | no p ↦
                let e : i ≡ length xs = omega (arith, long) in
                rw e (ground (arith, get_elem?-append_last xs x, h₁.long))
          ];
        },
      )

module _ {A : Type 0} {s : Stack A} (xs : List A) {x : A} (h : Holds s (xs ++ x ∷ [])) where
  pub stack_peek-Holds : stack_peek s ≡ some x
  unfolding stack_peek
  stack_peek-Holds =
      let long = length-append xs (x ∷ []) in
      let e : s.len - 1 ≡ length xs = omega (arith, h.long, long) in
      let top = h.cells (length xs) (omega (arith, long)) ∙ get_elem?-append_last xs x in
      let some_there : ltb 0 s.len ≡ true = ground (arith, h.long, long) in rw (some_there, e) top

  pub stack_pop-Holds : (s' : Stack A) × (stack_pop s ≡ some (x, s')) × Holds s' xs
  unfolding stack_pop
  stack_pop-Holds =
      let long = length-append xs (x ∷ []) in
      let e : s.len - 1 ≡ length xs = omega (arith, h.long, long) in
      let top = h.cells (length xs) (omega (arith, long)) ∙ get_elem?-append_last xs x in
      let some_there : ltb 0 s.len ≡ true = ground (arith, h.long, long) in
      (
        record s { len = length xs },
        rw (some_there, e, top) refl,
        record {
          long = refl;
          room = omega (arith, h.room, e);
          small = h.small;
          cells = λ i lt. h.cells i (omega (arith, long)) ∙ get_elem?-append_left xs (x ∷ []) i lt;
        },
      )
