-- ===== src/HashMap/Lookup.antt =====
-- What a chain holds for a key, and what the search loops find in it.
use c_async_await.Base.{
  ℕ, zero, suc, ◌+◌, ◌≡◌, refl, Bool, true, false, Option, none, some, List, [], ◌∷◌, ◌++◌, ◌==◌,
  if◌then◌else◌, get_elem?, set, arith, ◌≢◌, Bool-cases, inl, inr,
}
use mathlib.Core.Path.{subst}
use mathlib.Core.Option
use c_async_await.HashMap.{HashNode, HashMap, erase_at, matches, scan}

-- What a program promises of the functions that it puts in its table, for the keys of one size:
-- they return, and only equal keys compare equal.
pub record Keys (K : Type 0) : Type 1 where
  pub size : ℕ
  pub Good : K → Type 0
  pub hash : K → ℕ
  pub diff : K → K → ℕ
  pub diff_self : (a : K) → diff a a ≡ 0
  pub diff_zero : (a b : K) → Good a → Good b → diff a b ≡ 0 → a ≡ b

module _ {K V : Type 0} (keys : Keys K) where
  open keys use {size, Good, hash, diff, diff_self, diff_zero}

  pub record IsServed (h : HashMap K V) : Type 0 where
    pub hashes : (k : K) → Good k → h.hash_fn k size ≡ some (hash k)
    pub equals : (a b : K) → Good a → Good b → h.equality_fn a b size ≡ some (diff a b)

  abbrev pub at_key : K → HashNode K V → Bool
  at_key k n = diff k n.key == 0

  abbrev pub IsStored : HashNode K V → Type 0
  IsStored n = (n.key_size ≡ size) × (n.hash ≡ hash n.key) × Good n.key

  abbrev pub AllStored : List (HashNode K V) → Type 0
  AllStored [] = Unit {0}
  AllStored (n ∷ ns) = IsStored n × AllStored ns

  unfoldable pub first : K → List (HashNode K V) → Option (HashNode K V)
  first k [] = none
  first k (n ∷ ns) = if at_key k n then some n else first k ns

  unfoldable pub tally : K → List (HashNode K V) → ℕ
  tally k [] = 0
  tally k (n ∷ ns) = if at_key k n then suc (tally k ns) else tally k ns

  -- The place of the first node with the key.
  unfoldable pub place : K → List (HashNode K V) → ℕ
  place k [] = 0
  place k (n ∷ ns) = if at_key k n then 0 else suc (place k ns)

  matches-at_key :
      {h : HashMap K V} (served : IsServed h) (k : K) (n : HashNode K V)
      → Good k
      → IsStored n
      → matches h k size (hash k) n ≡ some (at_key k n)
  unfolding matches
  matches-at_key {h} served k n g st =
      ground (arith, served.equals k n.key g st.2, diff_zero k n.key g st.2, diff_self k)

  pub scan-first :
      {h : HashMap K V} (served : IsServed h) (k : K) (ns : List (HashNode K V))
      → Good k
      → AllStored ns
      → scan (matches h k size (hash k)) ns ≡ some (Option.map (λ n. (place k ns, n)) (first k ns))
  unfolding scan first place
  scan-first served k [] g st = refl
  scan-first served k (n ∷ ns) g st =
      ground (arith, matches-at_key served k n g st.0, scan-first served k ns g st.1)

  pub first-none : (k : K) (ns : List (HashNode K V)) → tally k ns ≡ 0 → first k ns ≡ none
  unfolding first tally
  first-none k [] h = refl
  first-none k (n ∷ ns) h = ground (arith, first-none k ns)

  pub tally-zero : (k : K) (ns : List (HashNode K V)) → first k ns ≡ none → tally k ns ≡ 0
  unfolding first tally
  tally-zero k [] h = refl
  tally-zero k (n ∷ ns) h = ground (arith, tally-zero k ns)

  pub tally-append :
      (k : K) (ms ns : List (HashNode K V)) → tally k (ms ++ ns) ≡ tally k ms + tally k ns
  unfolding tally
  tally-append k [] ns = omega arith
  tally-append k (m ∷ ms) ns = ground (arith, tally-append k ms ns)

  pub first-append :
      (k : K) (ms ns : List (HashNode K V)) → tally k ms ≡ 0 → first k (ms ++ ns) ≡ first k ns
  unfolding first tally
  first-append k [] ns h = refl
  first-append k (m ∷ ms) ns h = ground (arith, first-append k ms ns)

  pub first-append_left :
      (k : K) (ms ns : List (HashNode K V)) → tally k ns ≡ 0 → first k (ms ++ ns) ≡ first k ms
  unfolding first
  first-append_left k [] ns h = first-none k ns h
  first-append_left k (m ∷ ms) ns h = ground (arith, first-append_left k ms ns)

  pub AllStored-append :
      (ms ns : List (HashNode K V)) → AllStored ms → AllStored ns → AllStored (ms ++ ns)
  AllStored-append [] ns a b = b
  AllStored-append (m ∷ ms) ns a b = (a.0, AllStored-append ms ns a.1 b)

  -- The node that is found stands at its place, and has the key.
  pub first-at_key :
      (k : K) (ns : List (HashNode K V)) (n : HashNode K V)
      → first k ns ≡ some n
      → (get_elem? ns (place k ns) ≡ some n) × (at_key k n ≡ true)
  unfolding first place
  first-at_key k [] n e = cc
  first-at_key k (m ∷ ms) n e = ground (arith, first-at_key k ms n)

  pub first-IsStored :
      (k : K) (ns : List (HashNode K V)) (n : HashNode K V)
      → AllStored ns
      → first k ns ≡ some n
      → IsStored n
  unfolding first
  first-IsStored k [] n a e = cc
  first-IsStored k (m ∷ ms) n a e = elim (Bool-cases (at_key k m)) [
    | inl hit ↦ let p : m ≡ n = ground arith in subst IsStored p a.0
    | inr miss ↦ first-IsStored k ms n a.1 (ground arith)
  ]

  -- Keys that compare equal to one key are that key.
  module _ (q k : K) (gq : Good q) (gk : Good k) where
    pub diff-none :
        (n : HashNode K V) → Good n.key → diff q k ≢ 0 → at_key k n ≡ true → at_key q n ≡ false
    diff-none n gn ne e =
        let same : k ≡ n.key = diff_zero k n.key gk gn (ground arith) in
        let other : diff q n.key ≢ 0 = rw (← same) ne in ground arith

  module _ (q k : K) (gq : Good q) (gk : Good k) where
    pub first-erase_at :
        (ns : List (HashNode K V))
        → AllStored ns
        → first k ns ≢ none
        → diff q k ≢ 0
        → (first q (erase_at ns (place k ns)) ≡ first q ns)
          × (tally q (erase_at ns (place k ns)) ≡ tally q ns)
    unfolding first tally place
    first-erase_at [] a some_k ne = (refl, refl)
    first-erase_at (n ∷ ns) a some_k ne =
        ground (arith, first-erase_at ns a.1, diff-none q k gq gk n a.0.2 ne)

    pub first-set :
        (ns : List (HashNode K V)) (m : HashNode K V)
        → AllStored ns
        → first k ns ≢ none
        → diff q k ≢ 0
        → m.key ≡ k
        → (first q (set ns (place k ns) m) ≡ first q ns)
          × (tally q (set ns (place k ns) m) ≡ tally q ns)
    unfolding first tally place
    first-set [] m a some_k ne e = (refl, refl)
    first-set (n ∷ ns) m a some_k ne e =
        let other : diff q m.key ≢ 0 = rw e ne in
        ground (arith, first-set ns m a.1, diff-none q k gq gk n a.0.2 ne)

  pub tally-erase_at :
      (k : K) (ns : List (HashNode K V))
      → first k ns ≢ none
      → suc (tally k (erase_at ns (place k ns))) ≡ tally k ns
  unfolding first tally place
  tally-erase_at k [] some_k = absurd (some_k refl)
  tally-erase_at k (n ∷ ns) some_k = ground (arith, tally-erase_at k ns)

  pub first-set_self :
      (k : K) (ns : List (HashNode K V)) (m : HashNode K V)
      → first k ns ≢ none
      → m.key ≡ k
      → (first k (set ns (place k ns) m) ≡ some m) × (tally k (set ns (place k ns) m) ≡ tally k ns)
  unfolding first tally place
  first-set_self k [] m some_k e = absurd (some_k refl)
  first-set_self k (n ∷ ns) m some_k e =
      let self : diff k m.key ≡ 0 = rw e (diff_self k) in ground (arith, first-set_self k ns m)

  pub AllStored-erase_at :
      (ns : List (HashNode K V)) (i : ℕ) → AllStored ns → AllStored (erase_at ns i)
  AllStored-erase_at [] i a = a
  AllStored-erase_at (n ∷ ns) zero a = a.1
  AllStored-erase_at (n ∷ ns) (suc i) a = (a.0, AllStored-erase_at ns i a.1)

  pub AllStored-set :
      (ns : List (HashNode K V)) (i : ℕ) (m : HashNode K V)
      → AllStored ns
      → IsStored m
      → AllStored (set ns i m)
  AllStored-set [] i m a s = a
  AllStored-set (n ∷ ns) zero m a s = (s, a.1)
  AllStored-set (n ∷ ns) (suc i) m a s = (a.0, AllStored-set ns i m a.1 s)
