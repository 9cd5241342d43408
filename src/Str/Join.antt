-- ===== src/Str/Join.antt =====
-- Joining and copying texts: `string_concat`, `string_clone`, `string_ref_clone`.
use c_async_await.Base.{
  ℕ, zero, suc, ◌+◌, ◌-◌, ◌*◌, ◌≤◌, ◌<◌, ◌≡◌, inl, inr, refl, ◌∙◌, sym, ap, ◌&&◌, none, some, List,
  [], ◌∷◌, ◌++◌, ltb, leb, ◌==◌, if◌then◌else◌, int_max, length, get_elem?, arith, Bool-cases,
  Option-cases, length-append, get_elem?-append_left, get_elem?-append_right,
}
use mathlib.Core.List.{append_assoc, append-nil}
use native.Mathlib.Decide.{dec_lt}
use c_async_await.Str.{
  String, StringRef, fit_cap, grown, append_from, string_ref_clone, string_concat, string_clone,
}
use c_async_await.Str.Text.{
  IsString, Begins, terminated, terminated-IsString, realloc-Begins, string_append-IsString,
}

-- The reference is to these characters.
pub record IsRef (ref : StringRef) (ys : List ℕ) : Type 0 where
  pub long : ref.len ≡ length ys
  pub reads : (k : ℕ) → k < length ys → ref.cells (ref.start + k) ≡ get_elem? ys k
  pub inside : ref.start + ref.len ≤ ref.size

-- The loop that enlarges a capacity ends, after as many rounds as tens of bytes are missing and one
-- more, with a capacity above what is needed that fits an `int`, when twice what is needed and ten
-- does.
pub fit_cap-lt :
    (fuel need cap : ℕ)
    → need < cap + 10 * fuel
    → need * 2 + 10 ≤ int_max
    → cap ≤ int_max
    → (c : ℕ) × (fit_cap (suc fuel) need cap ≡ some c) × (need < c) × (c ≤ int_max)
unfolding fit_cap
fit_cap-lt zero need cap near fits small = (cap, ground arith, omega arith, small)
fit_cap-lt (suc fuel) need cap near fits small = elim (Bool-cases (leb cap need)) [
  | inl more ↦
      let (c, e, lt, le) = fit_cap-lt fuel need (cap * 2 + 10) (omega arith) fits (ground arith) in
      (c, ground (arith, e), lt, le)
  | inr done ↦ (cap, ground arith, ground arith, small)
]

grown_sizes :
    {s : String} {xs : List ℕ} (h : IsString s xs) (c : ℕ)
    → c ≤ int_max
    → (c ≤ (grown s c).cap) × ((grown s c).cap ≤ (grown s c).size) × ((grown s c).cap ≤ int_max)
grown_sizes {s} h c le = elim (Bool-cases (c == s.cap)) [
  | inl same ↦ rw same (ground arith, h.sized, h.small)
  | inr other ↦ rw other (omega arith, omega arith, le)
]

module _ {s : String} {xs : List ℕ} (h : IsString s xs) where
  grown-Begins : (c : ℕ) → s.len < c → c ≤ int_max → Begins (grown s c) xs c
  grown-Begins c lt fits = elim (Bool-cases (c == s.cap)) [
    | inl same ↦
        rw same (record { reads = h.reads; wide = ground arith; sized = h.sized; small = h.small })
    | inr other ↦ rw other (realloc-Begins h c (omega (arith, h.long)) fits)
  ]

  -- The text and that of the reference, one behind the other.
  pub string_concat-IsString :
      (fuel : ℕ) {ref : StringRef} {ys : List ℕ}
      → IsRef ref ys
      → (length xs + length ys + 2) * 2 + 10 ≤ int_max
      → length xs + length ys + 2 < s.cap + 10 * fuel
      → (s' : String) × (string_concat (suc fuel) s ref ≡ some s') × IsString s' (xs ++ ys)
  unfolding string_concat
  string_concat-IsString fuel {ref} {ys} r fits near =
      let (c, fit, lt, le) =
        fit_cap-lt fuel (s.len + 1 + (ref.len + 1)) s.cap (omega (arith, h.long, r.long))
          (omega (arith, h.long, r.long)) h.small in
      let g = grown s c in
      let b = grown-Begins c (omega arith) le in
      let s₁ : String = record g {
        cells = λ j.
            if leb s.len j && ltb j (s.len + ref.len)
            then ref.cells (ref.start + (j - s.len))
            else g.cells j;
      } in
      let long = length-append xs ys in
      (
        terminated s₁ (s.len + ref.len),
        ground (arith, fit, b.wide, b.sized, r.inside, h.long, r.long),
        terminated-IsString s₁ (xs ++ ys) (s.len + ref.len) (omega (arith, long, h.long, r.long))
            (λ k lt. elim (dec_lt k (length xs)) [
              | yes p ↦ ground (arith, b.reads k p, get_elem?-append_left xs ys k p, h.long)
              | no p ↦ ground (
                arith,
                r.reads (k - length xs),
                get_elem?-append_right xs ys k,
                h.long,
                r.long,
                long,
              )
            ])
            (omega (arith, b.wide)) b.sized b.small,
      )

  -- The other string becomes a copy, zero included. Both are objects of their own.
  pub string_clone-IsString :
      (fuel : ℕ) {dst : String} {ys : List ℕ}
      → IsString dst ys
      → 0 < s.cap
      → (length xs + 2) * 2 + 10 ≤ int_max
      → length xs + 2 < dst.cap + 10 * fuel
      → (dst' : String) × (string_clone (suc fuel) s dst ≡ some dst') × IsString dst' xs
  unfolding string_clone
  string_clone-IsString fuel {dst} {ys} d pos fits near =
      let (c, fit, lt, le) =
        fit_cap-lt fuel (s.len + 2) dst.cap (omega (arith, h.long)) (omega (arith, h.long))
          d.small in
      let g = grown dst c in
      let (wide, sized, small) = grown_sizes d c le in
      let s₁ : String = record g {
        cells =
            λ j. if leb 0 j && ltb j (0 + (s.len + 1)) then s.cells (0 + (j - 0)) else g.cells j;
        len = s.len;
      } in
      (
        s₁,
        ground (arith, fit, wide, sized, h.ended pos, h.sized),
        record {
          long = h.long;
          reads = λ k lt'.
              let e : 0 + (k - 0) ≡ k = omega arith in rw e (ground (arith, h.reads k lt', h.long));
          ended = λ p. (
            omega (arith, wide),
            (let e : 0 + (s.len - 0) ≡ s.len = omega arith in rw e (ground (arith, h.ended pos))),
          );
          bare = λ z. absurd (omega (arith, wide));
          sized = sized;
          small = small;
        },
      )

-- A string without memory cannot be copied: its NULL is read.
pub string_clone_null :
    (fuel : ℕ) (src dst : String) → src.size ≡ 0 → string_clone fuel src dst ≡ none
unfolding string_clone
string_clone_null fuel src dst null = elim (Option-cases (fit_cap fuel (src.len + 2) dst.cap)) [
  | inl e ↦ ground (arith, e)
  | inr (c, e) ↦ ground (arith, e)
]

-- The characters of a reference from `i` on.
abbrev pub Rest : StringRef → ℕ → List ℕ → Type 0
Rest ref i ys =
    (ref.start + i + length ys ≤ ref.size)
    × ((k : ℕ) → k < length ys → ref.cells (ref.start + (i + k)) ≡ get_elem? ys k)

append_from-IsString :
    (ys : List ℕ) (ref : StringRef) (i : ℕ) {s : String} {xs : List ℕ}
    → Rest ref i ys
    → IsString s xs
    → (length xs + length ys + 2) * 2 + 10 ≤ int_max
    → (s' : String) × (append_from (length ys) i ref s ≡ some s') × IsString s' (xs ++ ys)
unfolding append_from
append_from-IsString [] ref i {s} {xs} r h fits = (s, refl, rw append-nil h)
append_from-IsString (y ∷ ys) ref i {s} {xs} r h fits =
    let (s₁, one, h₁) = string_append-IsString h y (ground (arith, h.long)) in
    let long = length-append xs (y ∷ []) in
    let first : ref.cells (ref.start + i) ≡ some y =
      (let e : i + 0 ≡ i = omega arith in rw e at (r.1 0 (omega arith))) in
    let (s₂, rest, h₂) =
      append_from-IsString ys ref (i + 1)
        (
          omega (arith, r.0),
          λ k lt.
              (let e : i + suc k ≡ i + 1 + k = omega arith in rw e at (r.1 (suc k) (omega arith))),
        )
        h₁ (omega (arith, long)) in
    (s₂, ground (arith, r.0, first, one, rest), rw append_assoc at h₂)

module _ {s : String} {xs : List ℕ} (h : IsString s xs) {ref : StringRef} {ys : List ℕ}
    (r : IsRef ref ys) where
  pub string_ref_clone-IsString :
      (length xs + length ys + 2) * 2 + 10 ≤ int_max
      → (s' : String) × (string_ref_clone ref s ≡ some s') × IsString s' (xs ++ ys)
  unfolding string_ref_clone
  string_ref_clone-IsString fits =
      let (s', run, text) =
        append_from-IsString ys ref 0
          (
            omega (arith, r.inside, r.long),
            λ k lt. (let e : 0 + k ≡ k = omega arith in rw e (r.reads k lt)),
          )
          h fits in
      (s', ap (λ n. append_from n 0 ref s) r.long ∙ run, text)

  -- For a string that holds a text and a reference to characters, with lengths whose doubled sum
  -- fits an `int` and enough rounds for the capacity, `string_concat`, which copies in one piece,
  -- and `string_ref_clone`, which appends one character at a time, both succeed and leave strings
  -- of the same length with the same characters.
  pub string_concat-eq-string_ref_clone :
      (fuel : ℕ)
      → (length xs + length ys + 2) * 2 + 10 ≤ int_max
      → length xs + length ys + 2 < s.cap + 10 * fuel
      → (s₁ s₂ : String) × (string_concat (suc fuel) s ref ≡ some s₁)
        × (string_ref_clone ref s ≡ some s₂)
        × (s₁.len ≡ s₂.len)
        × ((k : ℕ) → k < s₁.len → s₁.cells k ≡ s₂.cells k)
  string_concat-eq-string_ref_clone fuel fits near =
      let (s₁, e₁, h₁) = string_concat-IsString h fuel r fits near in
      let (s₂, e₂, h₂) = string_ref_clone-IsString fits in
      (
        s₁,
        s₂,
        e₁,
        e₂,
        h₁.long ∙ sym h₂.long,
        λ k lt. h₁.reads k (omega (arith, h₁.long)) ∙ sym (h₂.reads k (omega (arith, h₁.long))),
      )
