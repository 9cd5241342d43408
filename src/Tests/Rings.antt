-- ===== src/Tests/Rings.antt =====
-- A ring of ten cells whose list goes round the end of the array, and one at the largest capacity.
use c_async_await.Base.{
  ℕ, zero, suc, ◌≡◌, ◌<◌, ◌==◌, if◌then◌else◌, refl, none, some, [], ◌∷◌, get_elem?, inr, arith,
}
use c_async_await.Ring.{Ring, push_back, pop_front}
use c_async_await.QueueScheduler.{Queue}
use c_async_await.QueueScheduler.Turns.{turns, turns_round}
use c_async_await.Ring.Refine.{Holds, index, pop_front-Holds}
use c_async_await.Ring.Push.{push_back-Holds}

abbrev wrapped : Ring ℕ
wrapped = record {
  elems =
      λ i. if i == 8 then some 5 else if i == 9 then some 6 else if i == 0 then some 7 else none;
  start = 8;
  end = 1;
  cap = 10;
}

wrapped-Holds : Holds wrapped (5 ∷ 6 ∷ 7 ∷ [])
wrapped-Holds = record { valid = omega arith; size = refl; reads = reads }
  where
    reads : (k : ℕ) → k < 3 → wrapped.elems (index wrapped k) ≡ get_elem? (5 ∷ 6 ∷ 7 ∷ []) k
    reads zero lt = refl
    reads (suc zero) lt = refl
    reads (suc (suc zero)) lt = refl
    reads (suc (suc (suc k))) lt = absurd (omega arith)

-- All cells but one are used.
abbrev full : Ring ℕ
full = record { elems = λ i. if i == 1 then some 5 else none; start = 1; end = 0; cap = 2 }

full-Holds : Holds full (5 ∷ [])
full-Holds = record { valid = omega arith; size = refl; reads = reads }
  where
    reads : (k : ℕ) → k < 1 → full.elems (index full k) ≡ get_elem? (5 ∷ []) k
    reads zero lt = refl
    reads (suc k) lt = absurd (omega arith)

push_back-Holds_example : (q' : Ring ℕ) × (push_back full 6 ≡ some q') × Holds q' (5 ∷ 6 ∷ [])
push_back-Holds_example = push_back-Holds 6 full-Holds (inr (omega arith))

pop_front-Holds_example :
    (q' : Ring ℕ) × (pop_front wrapped ≡ some (5, q')) × Holds q' (6 ∷ 7 ∷ []) × (3 < q'.cap)
pop_front-Holds_example = pop_front-Holds 5 (6 ∷ 7 ∷ []) wrapped-Holds

turns_round_example :
    (q' : Queue) × (turns 3 wrapped ≡ some (6 ∷ 7 ∷ 5 ∷ [], q')) × Holds q' (5 ∷ 6 ∷ 7 ∷ [])
turns_round_example = turns_round 5 (6 ∷ 7 ∷ []) wrapped-Holds
