-- ===== src/Async/Running.antt =====
-- The program between two calls under the graph scheduler: the processor belongs to the front of
-- the queue, and every queued task can run. `async_skip` keeps it so.
use c_async_await.Base.{
  ℕ, refl, ◌<◌, ◌≡◌, ◌≢◌, true, some, List, [], ◌∷◌, ◌++◌, ◌==◌, arith, mem, inl, inr, Bool-cases,
  if◌then◌else◌,
}
use c_async_await.HashMap.{HashNode}
use c_async_await.Pool.{Handle, Task, get_task}
use c_async_await.Pool.FreeList.{IsPool}
use c_async_await.Scheduler.{World}
use c_async_await.Scheduler.Switch.{CanRun, entered, task_after}
use c_async_await.GraphScheduler.{Node, Graph}
use c_async_await.GraphScheduler.Invariant.{Table, IsHandle, IsSound, handle_at}

-- `a` is the node in front of the queue, `ps` the rest.
pub record IsRunning (w : World Graph) (a : ℕ) (ps : List ℕ) (f : Table) (fl : List Handle)
    : Type 0 where
  pub sound : IsSound w.sched (a ∷ ps) f
  pub pool : IsPool w.pool fl
  pub owner :
      (b : ℕ) (n : Node)
      → mem b (a ∷ ps) ≡ true
      → w.sched.heap b ≡ some n
      → (e : HashNode ℕ ℕ) × (f n.h ≡ some e) × (e.val ≡ some b) × IsHandle n.h
  pub tasks :
      (b : ℕ) (n : Node)
      → mem b (a ∷ ps) ≡ true
      → w.sched.heap b ≡ some n
      → (t : Task) × (get_task w.pool n.h ≡ some t) × CanRun t
  pub turn : handle_at w.sched a ≡ w.on_cpu

-- What stands behind the new front when the old one goes to the back.
abbrev pub behind : ℕ → List ℕ → List ℕ
behind a [] = []
behind a (b ∷ bs) = bs ++ a ∷ []

pub CanRun-first : (t : Task) → CanRun t → CanRun (entered t)
CanRun-first t rt = record {
  not_free = ground (arith, rt.not_free);
  not_ready = ground (arith, rt.not_ready);
  stacked = ground (arith, rt.stacked);
}

pub CanRun-after :
    (rsp : ℕ) (from to k : Handle) (u t v : Task)
    → 0 < rsp
    → CanRun u
    → CanRun t
    → CanRun v
    → (v' : Task) × (task_after rsp from u to t k (some v) ≡ some v') × CanRun v'
CanRun-after rsp from to k u t v pos ru rt rv = elim (Bool-cases (from == k)) [
  | inl e ↦ (
    record u { stack_ptr = rsp },
    ground arith,
    record { not_free = ru.not_free; not_ready = ru.not_ready; stacked = pos },
  )
  | inr e ↦ elim (Bool-cases (to == k)) [
    | inl e' ↦ (entered t, ground arith, CanRun-first t rt)
    | inr e' ↦ (v, ground arith, rv)
  ]
]

-- No task is lost, and all but that of `x` can still run if they could.
abbrev pub Keeps : Handle → World Graph → World Graph → Type 0
Keeps x w w' =
    (k : Handle) (t : Task)
    → get_task w.pool k ≡ some t
    → (t' : Task) × (get_task w'.pool k ≡ some t') × (x ≢ k → CanRun t → CanRun t')

-- The same for a switch.
pub kept-after :
    (rsp : ℕ) (from to k : Handle) (u t v : Task)
    → 0 < rsp
    → CanRun u
    → CanRun t
    → (v' : Task) × (task_after rsp from u to t k (some v) ≡ some v') × (CanRun v → CanRun v')
kept-after rsp from to k u t v pos ru rt = elim (Bool-cases (from == k)) [
  | inl e ↦ (
    record u { stack_ptr = rsp },
    ground arith,
    λ _. record { not_free = ru.not_free; not_ready = ru.not_ready; stacked = pos },
  )
  | inr e ↦ elim (Bool-cases (to == k)) [
    | inl e' ↦ (entered t, ground arith, λ _. CanRun-first t rt)
    | inr e' ↦ (v, ground arith, λ rv. rv)
  ]
]

-- What a task is to do, and whether it is an orphan.
abbrev pub SameWork : Task → Task → Type 0
SameWork t t' = (t'.fn ≡ t.fn) × (t'.argument ≡ t.argument) × (t'.orphaned ≡ t.orphaned)

abbrev pub KeepsWork : World Graph → World Graph → Type 0
KeepsWork w w' =
    (k : Handle) (t : Task)
    → get_task w.pool k ≡ some t
    → (t' : Task) × (get_task w'.pool k ≡ some t') × SameWork t t'

-- A switch changes nothing of the work.
pub work-after :
    (rsp : ℕ) (from to k : Handle) (u t v : Task)
    → (from ≡ k → u ≡ v)
    → (to ≡ k → t ≡ v)
    → (v' : Task) × (task_after rsp from u to t k (some v) ≡ some v') × SameWork v v'
work-after rsp from to k u t v same same' = elim (Bool-cases (from == k)) [
  | inl e ↦
      let eq : u ≡ v = same (ground arith) in
      (record u { stack_ptr = rsp }, ground arith, (ground arith, ground arith, ground arith))
  | inr e ↦ elim (Bool-cases (to == k)) [
    | inl e' ↦
        let eq : t ≡ v = same' (ground arith) in
        (entered t, ground arith, (ground arith, ground arith, ground arith))
    | inr e' ↦ (v, ground arith, (refl, refl, refl))
  ]
]

-- The same for a task that finishes and hands over.
pub kept-finished :
    (x to k : Handle) (fin u v : Task)
    → CanRun u
    → (v' : Task) × ((if to == k then some (entered u) else if x == k then some fin else some v)
        ≡ some v')
      × (x ≢ k → CanRun v → CanRun v')
kept-finished x to k fin u v ru = elim (Bool-cases (to == k)) [
  | inl e ↦ (entered u, ground arith, λ _ _. CanRun-first u ru)
  | inr e ↦ elim (Bool-cases (x == k)) [
    | inl e' ↦ (fin, ground arith, λ ne _. absurd (ne (ground arith)))
    | inr e' ↦ (v, ground arith, λ _ rv. rv)
  ]
]

module _ {w : World Graph} {a : ℕ} {ps : List ℕ} {f : Table} {fl : List Handle}
    (r : IsRunning w a ps f fl) where
  -- Two queued nodes of one handle are one node.
  pub same_node :
      (b c : ℕ) (n m : Node)
      → mem b (a ∷ ps) ≡ true
      → mem c (a ∷ ps) ≡ true
      → w.sched.heap b ≡ some n
      → w.sched.heap c ≡ some m
      → n.h ≡ m.h
      → b ≡ c
  same_node b c n m mb mc hb hc e =
      let (x, fx, vx, _) = r.owner b n mb hb in
      let (y, fy, vy, _) = r.owner c m mc hc in ground arith
