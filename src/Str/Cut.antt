-- ===== src/Str/Cut.antt =====
-- How far a test passes in a text, and what a reference is to after a cut.
use c_async_await.Base.{
  ℕ, suc, ◌+◌, ◌-◌, ◌≤◌, ◌≡◌, inl, inr, refl, ◌∙◌, sym, ap, Bool, true, not, some, List, [], ◌∷◌,
  ◌==◌, if◌then◌else◌, length, arith, Bool-cases, drop, take, length-drop, get_elem?-drop,
  get_elem?-take, length-take_le,
}
use c_async_await.Str.{StringRef, skip, advance, string_ref_trim_left, string_ref_split_ws_once}
use c_async_await.Str.Join.{IsRef, Rest}

-- The number of leading characters that pass a test.
abbrev pub lead : (ℕ → Bool) → List ℕ → ℕ
lead test [] = 0
lead test (y ∷ ys) = if test y then suc (lead test ys) else 0

pub lead-le : (test : ℕ → Bool) (ys : List ℕ) → lead test ys ≤ length ys
lead-le test [] = omega arith
lead-le test (y ∷ ys) = ground (arith, lead-le test ys)

-- What passes a narrower test can be cut first.
pub lead-split :
    (p q : ℕ → Bool)
    → ((c : ℕ) → p c ≡ true → q c ≡ true)
    → (ys : List ℕ) → lead q ys ≡ lead p ys + lead q (drop (lead p ys) ys)
lead-split p q le [] = refl
lead-split p q le (y ∷ ys) = elim (Bool-cases (p y)) [
  | inl e ↦ rw (e, le y e) (omega (arith, lead-split p q le ys))
  | inr e ↦ rw e (omega arith)
]

skip-lead :
    (test : ℕ → Bool) (ys : List ℕ) (ref : StringRef) (i : ℕ)
    → Rest ref i ys
    → skip test (length ys) i ref ≡ some (i + lead test ys)
unfolding skip
skip-lead test [] ref i r = ground arith
skip-lead test (y ∷ ys) ref i r =
    let first : ref.cells (ref.start + i) ≡ some y =
      (let e : i + 0 ≡ i = omega arith in rw e at (r.1 0 (omega arith))) in
    let rest = skip-lead test ys ref (i + 1) (
      omega (arith, r.0),
      λ k lt. (let e : i + suc k ≡ i + 1 + k = omega arith in rw e at (r.1 (suc k) (omega arith))),
    ) in
    ground (arith, r.0, first, rest)

module _ {ref : StringRef} {ys : List ℕ} (r : IsRef ref ys) where
  drop-Rest : (n : ℕ) → n ≤ length ys → Rest ref n (drop n ys)
  drop-Rest n le = (
    omega (arith, r.inside, r.long, length-drop n ys),
    λ k lt. r.reads (n + k) (omega (arith, length-drop n ys)) ∙ sym (get_elem?-drop n ys k),
  )

  skip_from :
      (test : ℕ → Bool) (n : ℕ)
      → n ≤ length ys
      → skip test (ref.len - n) n ref ≡ some (n + lead test (drop n ys))
  skip_from test n le =
      let e : ref.len - n ≡ length (drop n ys) = omega (arith, r.long, length-drop n ys) in
      ap (λ k. skip test k n ref) e ∙ skip-lead test (drop n ys) ref n (drop-Rest n le)

  skip_start : (test : ℕ → Bool) → skip test ref.len 0 ref ≡ some (lead test ys)
  skip_start test =
      let e : 0 + lead test ys ≡ lead test ys = omega arith in
      ap (λ k. skip test k 0 ref) r.long
      ∙ (skip-lead test ys ref 0 (drop-Rest 0 (omega arith)) ∙ ap some e)

  pub part-IsRef :
      (n m : ℕ)
      → n + m ≤ length ys
      → IsRef (record ref { start = ref.start + n; len = m }) (take m (drop n ys))
  part-IsRef n m le =
      let long = length-take_le m (drop n ys) (omega (arith, length-drop n ys)) in
      record {
        long = sym long;
        reads = λ k lt.
            let e : ref.start + n + k ≡ ref.start + (n + k) = omega arith in
            rw e (
              r.reads (n + k) (omega (arith, long))
              ∙ (sym (get_elem?-drop n ys k)
                  ∙ sym (get_elem?-take m (drop n ys) k (omega (arith, long)))));
        inside = omega (arith, r.inside, r.long);
      }

  advance-IsRef : (n : ℕ) → n ≤ length ys → IsRef (advance ref n) (drop n ys)
  advance-IsRef n le = record {
    long = omega (arith, r.long, length-drop n ys);
    reads = λ k lt.
        let e : ref.start + n + k ≡ ref.start + (n + k) = omega arith in
        rw e (r.reads (n + k) (omega (arith, length-drop n ys)) ∙ sym (get_elem?-drop n ys k));
    inside = omega (arith, r.inside, r.long);
  }

  pub string_ref_trim_left-IsRef :
      (c : ℕ)
      → (string_ref_trim_left ref c
          ≡ some (lead (λ x. x == c) ys, advance ref (lead (λ x. x == c) ys)))
        × IsRef (advance ref (lead (λ x. x == c) ys)) (drop (lead (λ x. x == c) ys) ys)
  unfolding string_ref_trim_left
  string_ref_trim_left-IsRef c =
      let test : ℕ → Bool = λ x. x == c in
      (rw (skip_start test) refl, advance-IsRef (lead test ys) (lead-le test ys))

  -- On a reference to characters, `string_ref_split_ws_once` skips what `isspace` says is space,
  -- gives the token of the characters up to the next space, leaves the reference on what follows
  -- the token, and says whether the token has a character.
  pub string_ref_split_ws_once-IsRef :
      (isspace : ℕ → Bool)
      → (token rest : StringRef) × (string_ref_split_ws_once isspace ref
          ≡ some (not (lead (λ c. not (isspace c)) (drop (lead isspace ys) ys) == 0), token, rest))
        × IsRef token (
            take
              (lead (λ c. not (isspace c)) (drop (lead isspace ys) ys))
              (drop (lead isspace ys) ys))
        × IsRef rest
            (drop (lead isspace ys + lead (λ c. not (isspace c)) (drop (lead isspace ys) ys)) ys)
  unfolding string_ref_split_ws_once
  string_ref_split_ws_once-IsRef isspace =
      let n = lead isspace ys in
      let m = lead (λ c. not (isspace c)) (drop n ys) in
      let le = lead-le isspace ys in
      let le' = lead-le (λ c. not (isspace c)) (drop n ys) in
      let one = skip_start isspace in
      let two = skip_from (λ c. not (isspace c)) n le in
      (
        record ref { start = ref.start + n; len = m },
        advance ref (n + m),
        (let e : n + m - n ≡ m = omega arith in rw (one, two, e) refl),
        part-IsRef n m (omega (arith, length-drop n ys)),
        advance-IsRef (n + m) (omega (arith, length-drop n ys)),
      )
