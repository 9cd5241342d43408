-- ===== src/Str/Trim.antt =====
-- Cutting references: `string_ref_trim_left`, `string_ref_trim_left_ws`, `string_ref_split_ws_once`
-- and `string_substr`.
use c_async_await.Base.{
  ℕ, zero, suc, ◌+◌, ◌≤◌, ◌<◌, ◌≡◌, inl, inr, refl, ◌∙◌, sym, ap, Bool, ◌||◌, none, some, List, [],
  ◌∷◌, ◌==◌, if◌then◌else◌, length, arith, Bool-cases, drop, take, length-drop, drop-drop,
}
use mathlib.Core.Path.{subst}
use c_async_await.Str.{
  String, StringRef, advance, trim_rounds, string_ref_trim_left_ws, string_substr, string_ref,
}
use c_async_await.Str.Text.{IsString}
use c_async_await.Str.Join.{IsRef}
use c_async_await.Str.Cut.{lead, lead-le, lead-split, part-IsRef, string_ref_trim_left-IsRef}

-- Blanks are spaces and tabs.
abbrev pub blank : ℕ → Bool
blank c = c == b' ' || c == b'\t'

no_blank :
    (ys : List ℕ) → lead (λ x. x == b' ') ys ≡ 0 → lead (λ x. x == b'\t') ys ≡ 0 → lead blank ys ≡ 0
no_blank [] a b = refl
no_blank (y ∷ ys) a b = ground arith

blanks_split :
    (ys : List ℕ)
    → lead blank ys
      ≡ lead (λ x. x == b' ') ys
        + (lead (λ x. x == b'\t') (drop (lead (λ x. x == b' ') ys) ys)
            + lead blank (
                drop
                  (lead (λ x. x == b'\t') (drop (lead (λ x. x == b' ') ys) ys))
                  (drop (lead (λ x. x == b' ') ys) ys)))
blanks_split ys =
    let one = lead-split (λ x. x == b' ') blank (λ c e. ground arith) ys in
    let two =
      lead-split (λ x. x == b'\t') blank (λ c e. ground arith)
        (drop (lead (λ x. x == b' ') ys) ys) in
    omega (arith, one, two)

-- How much one round cuts, and where it leaves the reference.
abbrev spaces : List ℕ → ℕ
spaces ys = lead (λ x. x == b' ') ys

abbrev tabs : List ℕ → ℕ
tabs ys = lead (λ x. x == b'\t') (drop (spaces ys) ys)

abbrev cut : StringRef → List ℕ → StringRef
cut ref ys = advance (advance ref (spaces ys)) (tabs ys)

trim_round :
    (fuel sum : ℕ) {ref : StringRef} {ys : List ℕ}
    → IsRef ref ys
    → (trim_rounds (suc fuel) sum ref ≡ (
        if spaces ys + tabs ys == 0
        then some (sum + (spaces ys + tabs ys), cut ref ys)
        else trim_rounds fuel (sum + (spaces ys + tabs ys)) (cut ref ys)))
      × IsRef (cut ref ys) (drop (tabs ys) (drop (spaces ys) ys))
unfolding trim_rounds
trim_round fuel sum {ref} {ys} r =
    let (one, r₁) = string_ref_trim_left-IsRef r b' ' in
    let (two, r₂) = string_ref_trim_left-IsRef r₁ b'\t' in (rw (one, two) (ground arith), r₂)

trim_rounds-stop :
    (fuel sum : ℕ) {ref : StringRef} {ys : List ℕ}
    → IsRef ref ys
    → spaces ys + tabs ys ≡ 0
    → (ref' : StringRef) × (trim_rounds (suc fuel) sum ref ≡ some (sum + lead blank ys, ref'))
      × IsRef ref' (drop (lead blank ys) ys)
trim_rounds-stop fuel sum {ref} {ys} r stop =
    let (step, r₂) = trim_round fuel sum r in
    let e₁ : spaces ys ≡ 0 = omega arith in
    let e₂ : tabs ys ≡ 0 = omega arith in
    let none_left = no_blank ys e₁ (rw e₁ at e₂) in
    (
      cut ref ys,
      ground (arith, step),
      rw none_left (
          subst (IsRef (cut ref ys)) (drop-drop (spaces ys) (tabs ys) ys ∙ ap (λ k. drop k ys) stop)
            r₂),
    )

trim_rounds-IsRef :
    (fuel sum : ℕ) {ref : StringRef} {ys : List ℕ}
    → IsRef ref ys
    → length ys ≤ fuel
    → (ref' : StringRef) × (trim_rounds (suc fuel) sum ref ≡ some (sum + lead blank ys, ref'))
      × IsRef ref' (drop (lead blank ys) ys)
trim_rounds-IsRef zero sum {ref} {ys} r le = trim_rounds-stop zero sum r (
    omega (
      arith,
      lead-le (λ x. x == b' ') ys,
      lead-le (λ x. x == b'\t') (drop (spaces ys) ys),
      length-drop (spaces ys) ys,
    ))
trim_rounds-IsRef (suc fuel) sum {ref} {ys} r le = elim (Bool-cases (spaces ys + tabs ys == 0)) [
  | inl stop ↦ trim_rounds-stop (suc fuel) sum r (ground arith)
  | inr more ↦
      let (step, r₂) = trim_round (suc fuel) sum r in
      let n = spaces ys + tabs ys in
      let rest = drop (tabs ys) (drop (spaces ys) ys) in
      let together : rest ≡ drop n ys = drop-drop (spaces ys) (tabs ys) ys in
      let total : lead blank ys ≡ n + lead blank rest = omega (arith, blanks_split ys) in
      let (ref', run, last) =
        trim_rounds-IsRef fuel (sum + n) r₂ (
          ground
            (arith, length-drop (tabs ys) (drop (spaces ys) ys), length-drop (spaces ys) ys)) in
      (
        ref',
        step ∙ rw more (run ∙ ap (λ k. some (k, ref')) (omega (arith, total))),
        subst (IsRef ref')
            (ap (drop (lead blank rest)) together
              ∙ (drop-drop n (lead blank rest) ys ∙ ap (λ k. drop k ys) (sym total)))
            last,
      )
]

-- On a reference to characters, as many rounds as there are characters and one more are enough for
-- `string_ref_trim_left_ws`: it ends with the number of leading spaces and tabs, in whatever order
-- they come, and the reference is to what follows them.
pub string_ref_trim_left_ws-IsRef :
    (fuel : ℕ) {ref : StringRef} {ys : List ℕ}
    → IsRef ref ys
    → length ys ≤ fuel
    → (ref' : StringRef) × (string_ref_trim_left_ws (suc fuel) ref ≡ some (lead blank ys, ref'))
      × IsRef ref' (drop (lead blank ys) ys)
unfolding string_ref_trim_left_ws
string_ref_trim_left_ws-IsRef fuel {ref} {ys} r le =
    let (ref', run, last) = trim_rounds-IsRef fuel 0 r le in
    (ref', run ∙ ap (λ k. some (k, ref')) (omega arith), last)

-- The end of the string is out of reach: a part must leave a character behind it.
pub string_substr-IsRef :
    {s : String} {xs : List ℕ} (start len : ℕ)
    → IsString s xs
    → start + len < length xs
    → (ref : StringRef) × (string_substr s start len ≡ some ref)
      × IsRef ref (take len (drop start xs))
unfolding string_substr
string_substr-IsRef {s} {xs} start len h lt =
    let whole : IsRef (string_ref s) xs = record {
      long = h.long;
      reads = λ k l. (let e : 0 + k ≡ k = omega arith in rw e (h.reads k l));
      inside = ground (arith, h.ended, h.bare, h.sized);
    } in
    let e : 0 + start ≡ start = omega arith in
    (
      record { cells = s.cells; size = s.size; start = start; len = len },
      ground (arith, h.long),
      rw e at (part-IsRef whole start len (omega arith)),
    )

pub string_substr_end :
    {s : String} {xs : List ℕ} (start len : ℕ)
    → IsString s xs
    → start + len ≡ length xs
    → string_substr s start len ≡ none
unfolding string_substr
string_substr_end start len h e = ground (arith, h.long)
