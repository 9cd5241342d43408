-- ===== src/Program/Any.antt =====
-- `await_any` in a whole program, a turn of its loop.
use c_async_await.Base.{
  ℕ, zero, suc, ◌+◌, ◌<◌, ◌≡◌, ◌⊎◌, refl, ◌∙◌, ap, Bool, true, false, none, some, List, [], ◌∷◌,
  ◌==◌, arith, get_elem?, inl, inr, Bool-cases,
}
use c_async_await.Pool.{is_ready, Handle, Task, TaskPool, get_task}
use c_async_await.Pool.FreeList.{get_task-some}
use c_async_await.Scheduler.{World, poll_state, current_task_handle}
use c_async_await.GraphScheduler.{Graph, graph_vtable, graph_poll_task}
use c_async_await.GraphScheduler.Invariant.{Table}
use c_async_await.GraphScheduler.Turns.{front, graph_current_task-IsSound}
use c_async_await.Async.{value, pending, first_ready, await_any}
use c_async_await.Async.Running.{behind}
use c_async_await.Program.{IsProgram}
use c_async_await.Program.Keep.{async_skip-IsProgram}

-- The handles of an array are those of these tasks.
abbrev pub Tasks : TaskPool → List Handle → List Task → Type 0
Tasks p [] ts = ts ≡ []
Tasks p (h ∷ hs) [] = ⊥
Tasks p (h ∷ hs) (t ∷ ts) = (get_task p h ≡ some t) × Tasks p hs ts

-- None of the tasks before `j` is READY.
abbrev pub NoneBefore : ℕ → List Task → Type 0
NoneBefore j ts = (k : ℕ) (t : Task) → k < j → get_elem? ts k ≡ some t → is_ready t.state ≡ false

-- None of the tasks is READY.
abbrev pub NoneReady : List Task → Type 0
NoneReady ts = (k : ℕ) (t : Task) → get_elem? ts k ≡ some t → is_ready t.state ≡ false

NoneBefore-cons :
    (d : ℕ) (t : Task) (ts : List Task)
    → is_ready t.state ≡ false
    → NoneBefore d ts
    → NoneBefore (suc d) (t ∷ ts)
NoneBefore-cons d t ts busy before zero v lt q = ground arith
NoneBefore-cons d t ts busy before (suc k) v lt q = before k v (omega (arith, lt)) q

NoneReady-cons :
    (t : Task) (ts : List Task) → is_ready t.state ≡ false → NoneReady ts → NoneReady (t ∷ ts)
NoneReady-cons t ts busy rest zero v q = ground arith
NoneReady-cons t ts busy rest (suc k) v q = rest k v q

module _ {w : World Graph} {a : ℕ} {ps : List ℕ} {ws : ℕ → Bool} {f : Table}
    (r : IsProgram w a ps ws f) where
  -- The state that is reported is that in the task's slot.
  pub poll_state-eq :
      (h : Handle) (t : Task)
      → get_task w.pool h ≡ some t
      → poll_state graph_vtable w h ≡ some t.state
  unfolding poll_state graph_vtable current_task_handle graph_poll_task
  poll_state-eq h t task =
      let cur = graph_current_task-IsSound r.runs.sound in
      let (pos, inside, el) = get_task-some w.pool h t task in ground (arith, cur)

  first_ready-hit :
      (i : ℕ) (h : Handle) (hs : List Handle) (t : Task)
      → get_task w.pool h ≡ some t
      → is_ready t.state ≡ true
      → first_ready graph_vtable w i (h ∷ hs) ≡ some (some (i, t.argument))
  unfolding first_ready
  first_ready-hit i h hs t task done =
      let (pos, _, _) = get_task-some w.pool h t task in
      let named : h == 0 ≡ false = ground arith in
      ground (arith, named, poll_state-eq h t task, done, task)

  first_ready-miss :
      (i : ℕ) (h : Handle) (hs : List Handle) (t : Task)
      → get_task w.pool h ≡ some t
      → is_ready t.state ≡ false
      → first_ready graph_vtable w i (h ∷ hs) ≡ first_ready graph_vtable w (i + 1) hs
  unfolding first_ready
  first_ready-miss i h hs t task busy =
      let (pos, _, _) = get_task-some w.pool h t task in
      let named : h == 0 ≡ false = ground arith in
      ground (arith, named, poll_state-eq h t task, busy)

  first_ready-nil : (i : ℕ) → first_ready graph_vtable w i [] ≡ some none
  unfolding first_ready
  first_ready-nil i = refl

  first_ready-cases :
      (i : ℕ) (hs : List Handle) (ts : List Task)
      → Tasks w.pool hs ts
      → ((d : ℕ) × (t : Task) × (first_ready graph_vtable w i hs ≡ some (some (i + d, t.argument)))
          × (get_elem? ts d ≡ some t)
          × (is_ready t.state ≡ true)
          × NoneBefore d ts)
        ⊎ ((first_ready graph_vtable w i hs ≡ some none) × NoneReady ts)
  first_ready-cases i [] ts e = inr (first_ready-nil i, λ k t q. absurd (ground arith))
  first_ready-cases i (h ∷ hs) [] e = absurd e
  first_ready-cases i (h ∷ hs) (t ∷ ts) (task, rest) = elim (Bool-cases (is_ready t.state)) [
    | inl done ↦ inl (
      0,
      t,
      first_ready-hit i h hs t task done ∙ ap (λ j. some (some (j, t.argument))) (omega arith),
      refl,
      done,
      λ k u lt q. absurd (omega (arith, lt)),
    )
    | inr busy ↦
        let miss = first_ready-miss i h hs t task busy in
        elim (first_ready-cases (i + 1) hs ts rest) [
          | inl (d, u, hit, at, done, before) ↦
              let place : i + 1 + d ≡ i + suc d = omega arith in
              inl (
                suc d,
                u,
                miss ∙ (hit ∙ ap (λ j. some (some (j, u.argument))) place),
                at,
                done,
                NoneBefore-cons d t ts busy before,
              )
          | inr (none_hit, none_ready) ↦ inr (miss ∙ none_hit, NoneReady-cons t ts busy none_ready)
        ]
  ]

  -- In a program, with a saved stack pointer that is not NULL and handles of tasks in the pool, a
  -- turn of `await_any` changes nothing and returns the place and the result of the first task that
  -- is READY, or none is READY and it leaves a program in which the next coroutine of the queue has
  -- the processor.
  pub await_any-IsProgram :
      (rsp : ℕ) (hs : List Handle) (ts : List Task)
      → 0 < rsp
      → Tasks w.pool hs ts
      → ((j : ℕ) × (t : Task) × (await_any graph_vtable w rsp hs ≡ some (w, value (j, t.argument)))
          × (get_elem? ts j ≡ some t)
          × (is_ready t.state ≡ true)
          × NoneBefore j ts)
        ⊎ ((w' : World Graph) × (await_any graph_vtable w rsp hs ≡ some (w', pending))
            × NoneReady ts
            × IsProgram w' (front a ps) (behind a ps) ws f)
  unfolding await_any
  await_any-IsProgram rsp hs ts pos tasks = elim (first_ready-cases 0 hs ts tasks) [
    | inl (d, t, hit, at, done, before) ↦
        let hit' : first_ready graph_vtable w 0 hs ≡ some (some (d, t.argument)) =
          hit ∙ ap (λ j. some (some (j, t.argument))) (omega arith) in
        inl (d, t, rw hit' refl, at, done, before)
    | inr (miss, none_ready) ↦
        let (w', runs, is) = async_skip-IsProgram r rsp pos in
        inr (w', rw (miss, runs) refl, none_ready, is)
  ]
