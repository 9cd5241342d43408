-- ===== src/Pool/FreeList.antt =====
-- The free list of the pool: `start_new_task` and `free_task` keep it a chain of exactly the free
-- slots.
use c_async_await.Base.{
  ℕ, ◌+◌, ◌-◌, ◌*◌, ◌≤◌, ◌<◌, ◌≡◌, ◌≢◌, refl, ◌∙◌, true, false, Option, none, some, List, [], ◌∷◌,
  ◌++◌, ltb, leb, ◌==◌, if◌then◌else◌, get_elem?, arith, length, mem, IsDistinct, inl, inr,
  Bool-cases, set, get_elem?-set_self, get_elem?-set_ne, length-set, get_elem?-append_left,
  get_elem?-append_last, length-append, int_max, ok, exit,
}
use c_async_await.Pool.{
  init, free, is_free, Handle, Task, TaskPool, empty_pool, stack_size, get_task, put_task, new_slot,
  reuse_slot, take_slot, release_slot,
}

-- A task that is read stands in the pool.
pub get_task-some :
    (p : TaskPool) (h : Handle) (t : Task)
    → get_task p h ≡ some t
    → (0 < h) × (h ≤ length p.tasks) × (get_elem? p.tasks (h - 1) ≡ some t)
unfolding get_task
get_task-some p h t e = ground arith

-- A write to a task changes that one alone.
pub get_task-set :
    (p p' : TaskPool) (h k : Handle) (t t' : Task)
    → get_task p h ≡ some t
    → p'.tasks ≡ set p.tasks (h - 1) t'
    → get_task p' k ≡ (if h == k then some t' else get_task p k)
unfolding get_task
get_task-set p p' h k t t' e new =
    let len = length-set p.tasks (h - 1) t' in
    let (pos, inside, at) = get_task-some p h t e in
    elim (Bool-cases (h == k)) [
      | inl same ↦ rw same (
          let q : k ≡ h = ground arith in
          rw (q, new) (ground (arith, len, get_elem?-set_self p.tasks (h - 1) t')))
      | inr other ↦
          rw (other, new)
            (elim (Bool-cases (ltb 0 k)) [
              | inl some_k ↦
                  ground (arith, len, get_elem?-set_ne p.tasks {i = h - 1} {j = k - 1} t')
              | inr no_k ↦ rw no_k refl
            ])
    ]

get_task-append_last :
    (p : TaskPool) (t : Task) (new_cap : ℕ) (k : Handle)
    → get_task (record p { tasks = p.tasks ++ t ∷ []; cap = new_cap }) k
      ≡ (if length p.tasks + 1 == k then some t else get_task p k)
unfolding get_task
get_task-append_last p t new_cap k =
    let len = length-append p.tasks (t ∷ []) in
    elim (Bool-cases (length p.tasks + 1 == k)) [
      | inl same ↦
          let p' : k - 1 ≡ length p.tasks = ground arith in
          rw same (rw p' (ground (arith, len, get_elem?-append_last p.tasks t)))
      | inr other ↦ elim (Bool-cases (leb k (length p.tasks))) [
        | inl lo ↦ elim (Bool-cases (ltb 0 k)) [
          | inl pos ↦ ground (arith, len, get_elem?-append_left p.tasks (t ∷ []) (k - 1))
          | inr neg ↦ ground arith
        ]
        | inr hi ↦ ground (arith, len)
      ]
    ]

-- The handles from `h` on, each a free slot that points to the next.
abbrev pub IsChain : TaskPool → Handle → List Handle → Type 0
IsChain p h [] = h ≡ 0
IsChain p h (x ∷ xs) =
    (h ≡ x)
    × ((t : Task) × (get_task p x ≡ some t) × (is_free t.state ≡ true) × IsChain p t.handle xs)

-- `fl` is the free list. The slots that are not on it know their own handle.
pub record IsPool (p : TaskPool) (fl : List Handle) : Type 0 where
  pub chain : IsChain p p.free_task fl
  pub distinct : IsDistinct fl
  pub exact : (h : Handle) (t : Task) → get_task p h ≡ some t → is_free t.state ≡ mem h fl
  pub own : (h : Handle) (t : Task) → get_task p h ≡ some t → mem h fl ≡ false → t.handle ≡ h
  pub based : (h : Handle) (t : Task) → get_task p h ≡ some t → 0 < t.stack_base
  pub within : length p.tasks ≤ p.cap

pub empty_pool-IsPool : IsPool empty_pool []
unfolding get_task
empty_pool-IsPool = record {
  chain = refl;
  distinct = tt;
  exact = λ h t e. ground arith;
  own = λ h t e. ground arith;
  based = λ h t e. ground arith;
  within = omega arith;
}

-- A chain does not depend on slots that it does not go through.
IsChain-agree :
    (p p' : TaskPool) (h : Handle) (fl : List Handle)
    → ((k : Handle) → mem k fl ≡ true → get_task p' k ≡ get_task p k)
    → IsChain p h fl
    → IsChain p' h fl
IsChain-agree p p' h [] agree c = c
IsChain-agree p p' h (x ∷ xs) agree (e, (t, at, fr, rest)) = (
  e,
  (
    t,
    agree x (ground arith) ∙ at,
    fr,
    IsChain-agree p p' t.handle xs (λ k m. agree k (ground arith)) rest,
  ),
)

-- What a new task looks like.
abbrev pub IsStarted : Task → Handle → ℕ → ℕ → Type 0
IsStarted t h fn argument =
    (t.state ≡ init)
    × (t.handle ≡ h)
    × (t.fn ≡ fn)
    × (t.argument ≡ argument)
    × (t.stack_ptr ≡ t.stack_base + stack_size)

module _ {p : TaskPool} (fn argument : ℕ) where
  -- In a well formed pool, when the free list is not empty, starting a task takes its first slot:
  -- the task is INIT with the handle, function, argument and stack pointer of a new task but with
  -- the `orphaned` of the slot's last task, the list loses that slot, the pool stays well formed
  -- and the other slots stay.
  pub take_slot-IsPool_reuse :
      (mmap : Option ℕ) (x : Handle) (fl : List Handle)
      → IsPool p (x ∷ fl)
      → (old t : Task) × (p' : TaskPool) × (take_slot mmap fn argument p ≡ ok (p', x))
        × (get_task p x ≡ some old)
        × (get_task p' x ≡ some t)
        × IsStarted t x fn argument
        × (t.orphaned ≡ old.orphaned)
        × IsPool p' fl
        × ((k : Handle) → x ≢ k → get_task p' k ≡ get_task p k)
  unfolding take_slot reuse_slot
  take_slot-IsPool_reuse mmap x fl s =
      let (e, (t, at, fr, rest)) = s.chain in
      let (pos, inside, el) = get_task-some p x t at in
      let base = s.based x t at in
      let t' : Task = record t {
        state = init;
        handle = x;
        fn = fn;
        argument = argument;
        stack_ptr = t.stack_base + stack_size;
      } in
      let p' : TaskPool = record p { tasks = set p.tasks (x - 1) t'; free_task = t.handle } in
      let law = λ (k : Handle). get_task-set p p' x k t t' at refl in
      (
        t,
        t',
        p',
        ground arith,
        at,
        ground (arith, law x),
        (refl, refl, refl, refl, refl),
        refl,
        record {
          chain = IsChain-agree p p' t.handle fl (λ k m. ground (arith, law k, s.distinct.0)) rest;
          distinct = s.distinct.1;
          exact = λ k u a. ground (arith, law k, s.exact k u, s.distinct.0);
          own = λ k u a m. ground (arith, law k, s.own k u);
          based = λ k u a. ground (arith, law k, s.based k u);
          within = omega (arith, length-set p.tasks (x - 1) t');
        },
        λ k ne. ground (arith, law k),
      )

  -- In a well formed pool, when the free list is empty, the stack is not NULL and the pool can
  -- grow, starting a task adds a slot at the end: the task is INIT with the handle, function,
  -- argument and stack pointer of a new task and not orphaned, the pool stays well formed and the
  -- other slots stay.
  pub take_slot-IsPool_new :
      (base : ℕ)
      → IsPool p []
      → 0 < base
      → p.cap * 2 + 10 ≤ int_max
      → (t : Task) × (p' : TaskPool) × (take_slot (some base) fn argument p
          ≡ ok (p', length p.tasks + 1))
        × (get_task p' (length p.tasks + 1) ≡ some t)
        × IsStarted t (length p.tasks + 1) fn argument
        × (t.orphaned ≡ false)
        × IsPool p' []
        × ((k : Handle) → length p.tasks + 1 ≢ k → get_task p' k ≡ get_task p k)
  unfolding take_slot new_slot
  take_slot-IsPool_new base s pos room =
      let h = length p.tasks + 1 in
      let t : Task = record {
        stack_base = base;
        stack_ptr = base + stack_size;
        fn = fn;
        argument = argument;
        state = init;
        orphaned = false;
        handle = h;
      } in
      let cap' = if length p.tasks == p.cap then p.cap * 2 + 10 else p.cap in
      let law = get_task-append_last p t cap' in
      (
        t,
        record p { tasks = p.tasks ++ t ∷ []; cap = cap' },
        ground (arith, s.chain),
        ground (arith, law h),
        (refl, refl, refl, refl, refl),
        refl,
        record {
          chain = s.chain;
          distinct = tt;
          exact = λ k u a. ground (arith, law k, s.exact k u);
          own = λ k u a m. ground (arith, law k, s.own k u);
          based = λ k u a. ground (arith, law k, s.based k u);
          within = ground (arith, s.within, length-append p.tasks (t ∷ []));
        },
        λ k ne. ground (arith, law k),
      )

  -- When `mmap` fails the process exits with status 1.
  pub take_slot_no_memory :
      IsPool p [] → p.cap * 2 + 10 ≤ int_max → take_slot none fn argument p ≡ exit 1
  unfolding take_slot new_slot
  take_slot_no_memory s room = ground (arith, s.chain)

module _ {p : TaskPool} where
  -- In a well formed pool, freeing a slot that is not free puts it first on the free list, as FREE
  -- and pointing to the old first one; the pool stays well formed and the other slots stay.
  pub release_slot-IsPool :
      (h : Handle) (t : Task) {fl : List Handle}
      → IsPool p fl
      → get_task p h ≡ some t
      → mem h fl ≡ false
      → (p' : TaskPool) × (release_slot p h ≡ some p')
        × IsPool p' (h ∷ fl)
        × (get_task p' h ≡ some (record t { state = free; handle = p.free_task }))
        × ((k : Handle) → h ≢ k → get_task p' k ≡ get_task p k)
  unfolding release_slot
  release_slot-IsPool h t {fl} s at idle =
      let t' : Task = record t { state = free; handle = p.free_task } in
      let p' : TaskPool = record (put_task p h t') { free_task = h } in
      let law = λ (k : Handle). get_task-set p p' h k t t' at refl in
      (
        p',
        ground (arith, at),
        record {
          chain = (
            refl,
            (
              t',
              ground (arith, law h),
              refl,
              IsChain-agree p p' p.free_task fl (λ k m. ground (arith, law k)) s.chain,
            ),
          );
          distinct = (idle, s.distinct);
          exact = λ k u a. ground (arith, law k, s.exact k u);
          own = λ k u a m. ground (arith, law k, s.own k u);
          based = λ k u a. ground (arith, law k, s.based k u, s.based h t);
          within = omega (arith, s.within, length-set p.tasks (h - 1) t');
        },
        ground (arith, law h),
        λ k ne. ground (arith, law k),
      )
