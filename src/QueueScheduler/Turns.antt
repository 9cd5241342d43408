-- ===== src/QueueScheduler/Turns.antt =====
-- The queue scheduler is round robin: what its operations do to the list of waiting tasks.
use c_async_await.Base.{
  ℕ, zero, suc, ◌≡◌, refl, Option, none, some, List, [], ◌∷◌, ◌++◌, ◌>>=◌, arith, length, inl, ap,
}
use mathlib.Core.List.{append_assoc, append-nil}
use c_async_await.Ring.{peek_front}
use c_async_await.Ring.Refine.{Holds, pop_front-Holds, peek_front-Holds, peek_front-nil}
use c_async_await.Ring.Push.{push_back-Holds}
use c_async_await.Pool.{Handle}
use c_async_await.QueueScheduler.{Queue, finish_task, next_task}

abbrev pub front : Handle → List Handle → Handle
front h [] = h
front h (k ∷ ks) = k

peek_front-append :
    {q : Queue} (h : Handle) (hs : List Handle)
    → Holds q (hs ++ h ∷ [])
    → peek_front q ≡ some (front h hs)
peek_front-append h [] s = peek_front-Holds h [] s
peek_front-append h (k ∷ ks) s = peek_front-Holds k (ks ++ h ∷ []) s

-- When the queue holds a list that is not empty, the queue scheduler's `next_task` moves the
-- current task to the back of the queue and returns the new front.
pub next_task-Holds :
    {q : Queue} (h : Handle) (hs : List Handle)
    → Holds q (h ∷ hs)
    → (q' : Queue) × (next_task q ≡ some (front h hs, q')) × Holds q' (hs ++ h ∷ [])
unfolding next_task
next_task-Holds h hs s =
    let (q₁, popped, s₁, room) = pop_front-Holds h hs s in
    let (q₂, pushed, s₂) = push_back-Holds h s₁ (inl room) in
    (q₂, ground (arith, popped, pushed, peek_front-append h hs s₂), s₂)

-- When the queue holds at least two tasks, the queue scheduler's `finish_task` takes the current
-- task off the queue and returns it with the new front.
pub finish_task-Holds :
    {q : Queue} (h k : Handle) (ks : List Handle)
    → Holds q (h ∷ k ∷ ks)
    → (q' : Queue) × (finish_task q ≡ some (h, k, q')) × Holds q' (k ∷ ks)
unfolding finish_task
finish_task-Holds h k ks s =
    let (q₁, popped, s₁, room) = pop_front-Holds h (k ∷ ks) s in
    (q₁, ground (arith, popped, peek_front-Holds k ks s₁), s₁)

pub finish_task_alone : {q : Queue} (h : Handle) → Holds q (h ∷ []) → finish_task q ≡ none
unfolding finish_task
finish_task_alone h s =
    let (q₁, popped, s₁, room) = pop_front-Holds h [] s in ground (arith, popped, peek_front-nil s₁)

-- `n` turns: the tasks that become current, and the queue after them.
unfoldable pub turns : ℕ → Queue → Option (List Handle × Queue)
turns zero q = some ([], q)
turns (suc n) q = do (h, q₁) ← next_task q; (hs, q₂) ← turns n q₁; some (h ∷ hs, q₂)

-- `xs` without its first element, then `z`.
abbrev pub shifted : List Handle → Handle → List Handle
shifted [] z = []
shifted (x ∷ []) z = z ∷ []
shifted (x ∷ y ∷ ys) z = y ∷ shifted (y ∷ ys) z

shifted-cons : (x : Handle) (xs : List Handle) (z : Handle) → shifted (x ∷ xs) z ≡ xs ++ z ∷ []
shifted-cons x [] z = refl
shifted-cons x (y ∷ ys) z = ap (λ l. y ∷ l) (shifted-cons y ys z)

turns-Holds :
    {q : Queue} (xs : List Handle) (y : Handle) (ys : List Handle)
    → Holds q (xs ++ y ∷ ys)
    → (q' : Queue) × (turns (length xs) q ≡ some (shifted xs y, q')) × Holds q' (y ∷ ys ++ xs)
unfolding turns
turns-Holds {q} [] y ys s = (q, refl, rw append-nil s)
turns-Holds (x ∷ []) y ys s =
    let (q₁, step, s₁) = next_task-Holds x (y ∷ ys) s in (q₁, ground (arith, step), s₁)
turns-Holds (x ∷ x' ∷ xs) y ys s =
    let (q₁, step, s₁) = next_task-Holds x ((x' ∷ xs) ++ y ∷ ys) s in
    let (q₂, rest, s₂) = turns-Holds {q = q₁} (x' ∷ xs) y (ys ++ x ∷ []) (rw append_assoc at s₁) in
    (q₂, ground (arith, step, rest), rw append_assoc at s₂)

-- When the queue holds a list that is not empty, as many turns of the queue scheduler as it has
-- tasks succeed and make every task current once, in the order of the queue, and leave the queue
-- with the same list.
pub turns_round :
    {q : Queue} (h : Handle) (hs : List Handle)
    → Holds q (h ∷ hs)
    → (q' : Queue) × (turns (length (h ∷ hs)) q ≡ some (hs ++ h ∷ [], q')) × Holds q' (h ∷ hs)
unfolding turns
turns_round h [] s = let (q₁, step, s₁) = next_task-Holds h [] s in (q₁, ground (arith, step), s₁)
turns_round h (k ∷ ks) s =
    let (q₁, step, s₁) = next_task-Holds h (k ∷ ks) s in
    let (q₂, rest, s₂) = turns-Holds (k ∷ ks) h [] s₁ in
    (q₂, ground (arith, step, rest, shifted-cons k ks h), s₂)
