-- ===== src/Tests/Texts.antt =====
-- Strings of a few characters.
use c_async_await.Base.{
  ℕ, ◌+◌, ◌≤◌, ◌<◌, ◌≡◌, refl, inr, none, some, List, [], ◌∷◌, ◌++◌, length, get_elem?, int_max,
  arith,
}
use c_async_await.Base.{get_elem?-append_left}
use c_async_await.Str.{
  String, StringRef, string_append, string_ref_from_cstr, fit_cap, string_ref_trim_left_ws,
}
use c_async_await.Str.Text.{IsString, string_append-IsString}
use c_async_await.Str.Join.{IsRef, fit_cap-lt}
use c_async_await.Tests.{value_or}
use c_async_await.Str.Trim.{string_ref_trim_left_ws-IsRef}

-- A string with that text in memory that is just large enough.
abbrev pub tight : List ℕ → String
tight xs = record {
  cells = get_elem? (xs ++ 0 ∷ []);
  size = length xs + 1;
  len = length xs;
  cap = length xs + 1;
}

abbrev pub ab : List ℕ
ab = b'a' ∷ b'b' ∷ []

pub ab-IsString : IsString (tight ab) ab
ab-IsString = record {
  long = refl;
  reads = λ k lt. get_elem?-append_left ab (0 ∷ []) k lt;
  ended = λ p. (omega arith, refl);
  bare = λ e. absurd (omega arith);
  sized = omega arith;
  small = omega arith;
}

string_append-IsString_example :
    (s' : String) × (string_append (tight ab) b'c' ≡ some s') × IsString s' (ab ++ b'c' ∷ [])
string_append-IsString_example = string_append-IsString ab-IsString b'c' (inr (omega arith))

fit_cap-lt_example : (c : ℕ) × (fit_cap 4 25 0 ≡ some c) × (25 < c) × (c ≤ int_max)
fit_cap-lt_example = fit_cap-lt 3 25 0 (omega arith) (omega arith) (omega arith)

abbrev cd : List ℕ
cd = b' ' ∷ b'\t' ∷ b'c' ∷ b'd' ∷ b' ' ∷ []

abbrev cd_ref : StringRef
cd_ref =
    value_or (record { cells = λ k. none; size = 0; start = 0; len = 0 }) (string_ref_from_cstr cd)

cd_ref-IsRef : IsRef cd_ref cd
cd_ref-IsRef = record {
  long = refl;
  reads = λ k lt. let e : 0 + k ≡ k = omega arith in rw e refl;
  inside = omega arith;
}

string_ref_trim_left_ws-IsRef_example :
    (ref' : StringRef) × (string_ref_trim_left_ws 6 cd_ref ≡ some (2, ref'))
    × IsRef ref' (b'c' ∷ b'd' ∷ b' ' ∷ [])
string_ref_trim_left_ws-IsRef_example = string_ref_trim_left_ws-IsRef 5 cd_ref-IsRef (omega arith)
