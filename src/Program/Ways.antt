-- ===== src/Program/Ways.antt =====
-- Where the nodes lead to, as the queue and the parents change.
use c_async_await.Base.{
  ℕ, ◌≡◌, ◌≢◌, ◌∙◌, Bool, true, none, some, List, [], ◌∷◌, ◌==◌, arith, mem, inl, inr, Bool-cases,
}
use c_async_await.GraphScheduler.{Graph}
use c_async_await.GraphScheduler.Invariant.{parent_at}
use c_async_await.Program.{Leads, arrives, through}

-- With the same parents, and with no node less in the queue.
pub Leads-map :
    {g g' : Graph} {q q' : ℕ → Bool}
    → ((x : ℕ) → q x ≡ true → q' x ≡ true)
    → ((x b : ℕ) → parent_at g x ≡ some b → parent_at g' x ≡ some b)
    → {b : ℕ} → Leads g q b
    → Leads g' q' b
Leads-map more same (arrives x) = arrives (more _ x)
Leads-map more same (through c e l) = through c (same c _ e) (Leads-map more same l)

-- The front `a` waits for the queued `c`.
pub Leads-wait :
    {g g' : Graph} {a c : ℕ} (ps : List ℕ)
    → mem c ps ≡ true
    → parent_at g c ≡ none
    → parent_at g' c ≡ some a
    → ((x : ℕ) → c ≢ x → parent_at g' x ≡ parent_at g x)
    → {b : ℕ} → Leads g (λ x. mem x (a ∷ ps)) b
    → Leads g' (λ x. mem x ps) b
Leads-wait {a = a} {c = c} ps queued was now others {b} (arrives x) = elim (Bool-cases (a == b)) [
  | inl e ↦ through c (now ∙ ground arith) (arrives queued)
  | inr e ↦ arrives (ground arith)
]
Leads-wait {c = c} ps queued was now others {b} (through d e l) = elim (Bool-cases (c == d)) [
  | inl q ↦ absurd (ground arith)
  | inr q ↦ through d (others d (ground arith) ∙ e) (Leads-wait ps queued was now others l)
]

-- `a` leaves, and whoever waited for it is queued.
pub Leads-leave :
    {g g' : Graph} {a : ℕ} (ps : List ℕ) {q' : ℕ → Bool}
    → ((x : ℕ) → mem x ps ≡ true → q' x ≡ true)
    → ((x : ℕ) → parent_at g a ≡ some x → q' x ≡ true)
    → ((x : ℕ) → parent_at g' x ≡ parent_at g x)
    → {b : ℕ} → a ≢ b
    → Leads g (λ x. mem x (a ∷ ps)) b
    → Leads g' q' b
Leads-leave ps rest parent same {b} ne (arrives x) = arrives (rest b (ground arith))
Leads-leave {a = a} ps rest parent same {b} ne (through d e l) = elim (Bool-cases (a == d)) [
  | inl q ↦ arrives (parent b (ground arith))
  | inr q ↦ through d (same d ∙ e) (Leads-leave ps rest parent same (λ i. ground arith) l)
]

-- With a queue of one node that nobody waits for, no other node is there.
pub Leads-alone :
    {g : Graph} {a : ℕ} → parent_at g a ≡ none → {b : ℕ} → Leads g (λ x. mem x (a ∷ [])) b → b ≡ a
Leads-alone {a = a} none_waits {b} (arrives x) = ground arith
Leads-alone {a = a} none_waits {b} (through c e l) =
    let same : c ≡ a = Leads-alone none_waits l in absurd (ground arith)
