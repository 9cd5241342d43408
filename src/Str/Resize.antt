-- ===== src/Str/Resize.antt =====
-- Strings of a given length: `string_resize` and `string_reserve`.
use c_async_await.Base.{
  ℕ, ◌+◌, ◌≤◌, ◌<◌, ◌≡◌, refl, ◌∙◌, sym, ◌&&◌, none, some, List, [], ltb, leb, if◌then◌else◌,
  int_max, length, arith, take, replicate, length-replicate, get_elem?-replicate, get_elem?-take,
  length-take_le,
}
use c_async_await.Str.{String, string_resize, string_reserve, realloc}
use c_async_await.Str.Text.{IsString, terminated, terminated-IsString}

module _ {s : String} {xs : List ℕ} (h : IsString s xs) where
  pub string_resize_shrink :
      (n pad : ℕ)
      → n < length xs
      → (s' : String) × (string_resize s n pad ≡ some s') × IsString s' (take n xs)
  unfolding string_resize
  string_resize_shrink n pad lt =
      let long = length-take_le n xs (omega arith) in
      let room : s.len < s.cap = ground (arith, h.ended, h.bare, h.long) in
      (
        terminated s n,
        ground (arith, room, h.sized, h.long),
        terminated-IsString s (take n xs) n (sym long)
            (λ k l.
              h.reads k (omega (arith, long)) ∙ sym (get_elem?-take n xs k (omega (arith, long))))
            (omega (arith, room, h.long)) h.sized h.small,
      )

  -- On a string that holds a text that is not empty, `string_resize` to a greater length fails: its
  -- `memset` writes behind the memory.
  pub string_resize_grow :
      (n pad : ℕ) → 0 < length xs → length xs < n → string_resize s n pad ≡ none
  unfolding string_resize
  string_resize_grow n pad pos lt = ground (arith, h.long)

pub string_resize_empty :
    {s : String} (n pad : ℕ)
    → IsString s []
    → 0 < n
    → n + 1 ≤ int_max
    → (s' : String) × (string_resize s n pad ≡ some s') × IsString s' (replicate n pad)
unfolding string_resize
string_resize_empty {s} n pad h pos fits =
    let r = realloc s (n + 1) in
    let s₁ : String = record r {
      cells = λ j. if leb s.len j && ltb j (s.len + (n + 1)) then some pad else r.cells j;
    } in
    let long = length-replicate n pad in
    (
      terminated s₁ n,
      ground (arith, h.long),
      terminated-IsString s₁ (replicate n pad) n (sym long)
          (λ k l.
            let e = get_elem?-replicate n pad k (omega (arith, long)) in
            ground (arith, e, h.long, long))
          (omega arith) (omega arith) fits,
    )

-- The memory grows, but the capacity is still the old one.
pub string_reserve-IsString :
    {s : String} {xs : List ℕ} (n : ℕ)
    → IsString s xs
    → s.cap ≤ n
    → n + 1 ≤ int_max
    → (s' : String) × (string_reserve s n ≡ some s')
      × IsString s' xs
      × (s'.cap ≡ s.cap)
      × (s'.size ≡ n + 1)
unfolding string_reserve
string_reserve-IsString {s} n h low fits =
    let keep : (k : ℕ) → k < s.cap → (realloc s (n + 1)).cells k ≡ s.cells k =
      λ k lt. ground (arith, h.sized) in
    (
      record (realloc s (n + 1)) { cap = s.cap },
      ground arith,
      record {
        long = h.long;
        reads = λ k lt. keep k (ground (arith, h.ended, h.bare, h.long)) ∙ h.reads k lt;
        ended = λ p. ((h.ended p).0, keep s.len (h.ended p).0 ∙ (h.ended p).1);
        bare = h.bare;
        sized = omega arith;
        small = h.small;
      },
      refl,
      refl,
    )
