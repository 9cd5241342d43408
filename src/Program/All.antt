-- ===== src/Program/All.antt =====
-- `await_all` in a whole program, a turn of its loop.
use c_async_await.Base.{
  ℕ, zero, suc, ◌+◌, ◌<◌, ◌≤◌, ◌≡◌, ◌⊎◌, refl, sym, ◌∙◌, ap, Bool, true, false, some, List, [], ◌∷◌,
  ◌==◌, arith, get_elem?, set, length, length-set, get_elem?-set_self, get_elem?-set_ne, inl, inr,
  Bool-cases, Option, ltb,
}
use c_async_await.Pool.{is_ready, Handle, Task, get_task}
use c_async_await.Pool.FreeList.{get_task-some}
use c_async_await.Scheduler.{World}
use c_async_await.GraphScheduler.{Graph, graph_vtable}
use c_async_await.GraphScheduler.Invariant.{Table}
use c_async_await.GraphScheduler.Turns.{front}
use c_async_await.Async.{value, pending, collect, await_all}
use c_async_await.Async.Running.{behind}
use c_async_await.Program.{IsProgram}
use c_async_await.Program.Keep.{async_skip-IsProgram}
use c_async_await.Program.Any.{Tasks, poll_state-eq}

abbrev pub AllReady : List Task → Type 0
AllReady ts = (k : ℕ) (t : Task) → get_elem? ts k ≡ some t → is_ready t.state ≡ true

abbrev pub SomeBusy : List Task → Type 0
SomeBusy ts = (k : ℕ) × (t : Task) × (get_elem? ts k ≡ some t) × (is_ready t.state ≡ false)

AllReady-cons :
    (t : Task) (ts : List Task) → is_ready t.state ≡ true → AllReady ts → AllReady (t ∷ ts)
AllReady-cons t ts ready rest zero u e = ground arith
AllReady-cons t ts ready rest (suc k) u e = rest k u e

-- `out` is `results` with the results of the tasks that are READY, from the place `i` on, and
-- nothing else changed: not before `i`, not at a task that is not READY, not behind the tasks.
pub record Collected (i : ℕ) (ts : List Task) (results out : List ℕ) : Type 0 where
  pub same_length : length out ≡ length results
  pub before : (k : ℕ) → k < i → get_elem? out k ≡ get_elem? results k
  pub done :
      (k : ℕ) (t : Task)
      → get_elem? ts k ≡ some t
      → is_ready t.state ≡ true
      → get_elem? out (i + k) ≡ some t.argument
  pub busy :
      (k : ℕ) (t : Task)
      → get_elem? ts k ≡ some t
      → is_ready t.state ≡ false
      → get_elem? out (i + k) ≡ get_elem? results (i + k)
  pub beyond : (k : ℕ) → i + length ts ≤ k → get_elem? out k ≡ get_elem? results k

Collected-done :
    (i : ℕ) (t : Task) (ts : List Task) (results out : List ℕ)
    → i < length results
    → is_ready t.state ≡ true
    → Collected (i + 1) ts (set results i t.argument) out
    → Collected i (t ∷ ts) results out
Collected-done i t ts results out lt ready c = record {
  same_length = c.same_length ∙ length-set results i t.argument;
  before = λ k below.
      c.before k (omega arith) ∙ get_elem?-set_ne results t.argument (λ e. absurd (omega arith));
  done = λ k. done_at k;
  busy = λ k. busy_at k;
  beyond = λ k le.
      c.beyond k (omega arith) ∙ get_elem?-set_ne results t.argument (λ e. absurd (omega arith));
}
  where
    shifted : (k : ℕ) → i + 1 + k ≡ i + suc k
    shifted k = omega arith

    done_at :
        (k : ℕ) (u : Task)
        → get_elem? (t ∷ ts) k ≡ some u
        → is_ready u.state ≡ true
        → get_elem? out (i + k) ≡ some u.argument
    done_at zero u e r =
        let same : t ≡ u = ground arith in
        let here : i + 0 ≡ i = omega arith in
        ap (get_elem? out) here
        ∙ (c.before i (omega arith)
            ∙ (get_elem?-set_self results i t.argument lt
                ∙ ap (λ (v : Task). some v.argument) same))
    done_at (suc k) u e r = ap (get_elem? out) (sym (shifted k)) ∙ c.done k u e r

    busy_at :
        (k : ℕ) (u : Task)
        → get_elem? (t ∷ ts) k ≡ some u
        → is_ready u.state ≡ false
        → get_elem? out (i + k) ≡ get_elem? results (i + k)
    busy_at zero u e r = absurd (ground arith)
    busy_at (suc k) u e r =
        ap (get_elem? out) (sym (shifted k))
        ∙ (c.busy k u e r
            ∙ (get_elem?-set_ne results t.argument (λ j. absurd (omega arith))
                ∙ ap (get_elem? results) (shifted k)))

Collected-busy :
    (i : ℕ) (t : Task) (ts : List Task) (results out : List ℕ)
    → is_ready t.state ≡ false
    → Collected (i + 1) ts results out
    → Collected i (t ∷ ts) results out
Collected-busy i t ts results out not_ready c = record {
  same_length = c.same_length;
  before = λ k below. c.before k (omega arith);
  done = λ k. done_at k;
  busy = λ k. busy_at k;
  beyond = λ k le. c.beyond k (omega arith);
}
  where
    shifted : (k : ℕ) → i + 1 + k ≡ i + suc k
    shifted k = omega arith

    done_at :
        (k : ℕ) (u : Task)
        → get_elem? (t ∷ ts) k ≡ some u
        → is_ready u.state ≡ true
        → get_elem? out (i + k) ≡ some u.argument
    done_at zero u e r = absurd (ground arith)
    done_at (suc k) u e r = ap (get_elem? out) (sym (shifted k)) ∙ c.done k u e r

    busy_at :
        (k : ℕ) (u : Task)
        → get_elem? (t ∷ ts) k ≡ some u
        → is_ready u.state ≡ false
        → get_elem? out (i + k) ≡ get_elem? results (i + k)
    busy_at zero u e r = c.before (i + 0) (omega arith)
    busy_at (suc k) u e r =
        ap (get_elem? out) (sym (shifted k)) ∙ (c.busy k u e r ∙ ap (get_elem? results) (shifted k))

module _ {w : World Graph} {a : ℕ} {ps : List ℕ} {ws : ℕ → Bool} {f : Table}
    (r : IsProgram w a ps ws f) where
  collect-done :
      (i : ℕ) (h : Handle) (hs : List Handle) (t : Task) (results out : List ℕ) (n : ℕ)
      → get_task w.pool h ≡ some t
      → is_ready t.state ≡ true
      → i < length results
      → collect graph_vtable w (i + 1) hs (some (set results i t.argument)) ≡ some (n, some out)
      → collect graph_vtable w i (h ∷ hs) (some results) ≡ some (suc n, some out)
  unfolding collect
  collect-done i h hs t results out n task ready lt rest =
      let inside : ltb i (length results) ≡ true = ground arith in
      let (pos, _, _) = get_task-some w.pool h t task in
      let named : h == 0 ≡ false = ground arith in
      ground (arith, named, inside, poll_state-eq r h t task, task, ready, rest)

  collect-busy :
      (i : ℕ) (h : Handle) (hs : List Handle) (t : Task) (results out : List ℕ) (n : ℕ)
      → get_task w.pool h ≡ some t
      → is_ready t.state ≡ false
      → collect graph_vtable w (i + 1) hs (some results) ≡ some (n, some out)
      → collect graph_vtable w i (h ∷ hs) (some results) ≡ some (n, some out)
  unfolding collect
  collect-busy i h hs t results out n task not_ready rest =
      let (pos, _, _) = get_task-some w.pool h t task in
      let named : h == 0 ≡ false = ground arith in
      ground (arith, named, poll_state-eq r h t task, task, not_ready, rest)

  collect-nil :
      (i : ℕ) (results : Option (List ℕ)) → collect graph_vtable w i [] results ≡ some (0, results)
  unfolding collect
  collect-nil i results = refl

  collect-Collected :
      (i : ℕ) (hs : List Handle) (ts : List Task) (results : List ℕ)
      → Tasks w.pool hs ts
      → i + length hs ≤ length results
      → (n : ℕ) × (out : List ℕ) × (collect graph_vtable w i hs (some results) ≡ some (n, some out))
        × Collected i ts results out
        × (((n ≡ length hs) × AllReady ts) ⊎ ((n < length hs) × SomeBusy ts))
  collect-Collected i [] [] results e le = (
    0,
    results,
    collect-nil i (some results),
    record {
      same_length = refl;
      before = λ k lt. refl;
      done = λ k t e r. absurd (ground arith);
      busy = λ k t e r. refl;
      beyond = λ k le. refl;
    },
    inl (refl, λ k t e. absurd (ground arith)),
  )
  collect-Collected i [] (t ∷ ts) results e le = absurd (ground arith)
  collect-Collected i (h ∷ hs) [] results e le = absurd e
  collect-Collected i (h ∷ hs) (t ∷ ts) results (task, rest) le =
      elim (Bool-cases (is_ready t.state)) [
        | inl ready ↦
            let len = length-set results i t.argument in
            let (n, out, runs, c, many) =
              collect-Collected (i + 1) hs ts (set results i t.argument) rest
                (omega (arith, le, len)) in
            (
              suc n,
              out,
              collect-done i h hs t results out n task ready (omega (arith, le)) runs,
              Collected-done i t ts results out (omega (arith, le)) ready c,
              elim many [
                | inl (all, ready_all) ↦ inl (ap suc all, AllReady-cons t ts ready ready_all)
                | inr (few, (k, u, at, b)) ↦ inr (omega (arith, few), (suc k, u, at, b))
              ],
            )
        | inr not_ready ↦
            let (n, out, runs, c, many) =
              collect-Collected (i + 1) hs ts results rest (omega (arith, le)) in
            (
              n,
              out,
              collect-busy i h hs t results out n task not_ready runs,
              Collected-busy i t ts results out not_ready c,
              inr (
                elim many [ inl (all, _) ↦ omega (arith, all) | inr (few, _) ↦ omega (arith, few) ],
                (0, t, refl, not_ready),
              ),
            )
      ]

  -- In a program, with a saved stack pointer that is not NULL, handles of tasks in the pool and an
  -- array of results, not NULL, at least as long as theirs, a turn of `await_all` writes the result
  -- of each task that is READY to its place and changes no other place, neither that of a task that
  -- is not READY nor one behind the handles, and it returns when all are READY, or one is not and
  -- it leaves a program in which the next coroutine of the queue has the processor.
  pub await_all-IsProgram :
      (rsp : ℕ) (hs : List Handle) (ts : List Task) (results : List ℕ)
      → 0 < rsp
      → Tasks w.pool hs ts
      → length hs ≤ length results
      → (out : List ℕ) × Collected 0 ts results out
        × (((await_all graph_vtable w rsp hs (some results) ≡ some (w, some out, value tt))
              × AllReady ts)
            ⊎ ((w' : World Graph) × (await_all graph_vtable w rsp hs (some results)
                  ≡ some (w', some out, pending))
                × SomeBusy ts
                × IsProgram w' (front a ps) (behind a ps) ws f))
  unfolding await_all
  await_all-IsProgram rsp hs ts results pos tasks le =
      let (n, out, runs, c, many) = collect-Collected 0 hs ts results tasks (omega (arith, le)) in
      (
        out,
        c,
        elim many [
          | inl (all, ready_all) ↦
              let whole : n == length hs ≡ true = ground arith in
              inl (rw (runs, whole) refl, ready_all)
          | inr (few, one) ↦
              let (w', skips, is) = async_skip-IsProgram r rsp pos in
              let part : n == length hs ≡ false = ground arith in
              inr (w', rw (runs, part, skips) refl, one, is)
        ],
      )
