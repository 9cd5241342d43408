-- ===== src/Sockets/Coroutine.antt =====
-- The coroutine of `async_recv` in a whole program under the graph scheduler.
use c_async_await.Base.{
  ℕ, ◌<◌, ◌≡◌, ◌≢◌, ◌⊎◌, refl, Bool, true, false, some, List, ◌==◌, ◌&&◌, ◌||◌, arith, inl, inr,
  Bool-cases, ok,
}
use c_async_await.Pool.{Task, get_task}
use c_async_await.Scheduler.{World}
use c_async_await.GraphScheduler.{Node, Graph, graph_vtable, graph_scheduler}
use c_async_await.GraphScheduler.Invariant.{Table, handle_at}
use c_async_await.GraphScheduler.Turns.{front}
use c_async_await.Async.{await_resume, got}
use c_async_await.Async.Running.{behind}
use c_async_await.Marshal.{Memory, unpack}
use c_async_await.Program.{IsProgram}
use c_async_await.Program.Keep.{async_skip-IsProgram}
use c_async_await.Program.Back.{async_return-IsProgram, async_return-await_resume}
use c_async_await.Sockets.{failed}
use c_async_await.Sockets.Calls.{call_format, call_args, widened, call_turn, async_recv_impl}

-- What a system call says when it would block.
abbrev pub blocks : ℕ → ℕ → ℕ × ℕ → Bool
blocks again would_block (status, errno) =
    status == failed && (errno == again || errno == would_block)

-- What a turn of the node `a` with the handle `h` leaves of a program in `w`: it would block and the
-- queue goes on, or it is done, the node `p` that waits for it has the processor, and its `await`
-- goes on with the status.
abbrev pub Turned :
    World Graph → ℕ → List ℕ → (ℕ → Bool) → Table → ℕ → ℕ → Bool → ℕ → World Graph → Type 0
Turned w a ps ws f h p busy status w' =
    ((busy ≡ true) × IsProgram w' (front a ps) (behind a ps) ws f)
    ⊎ ((busy ≡ false)
        × ((b : ℕ) × (bs : List ℕ) × (ws' : ℕ → Bool) × IsProgram w' b bs ws' f)
        × (handle_at w.sched p ≡ w'.on_cpu)
        × ((rsp : ℕ)
            → await_resume graph_scheduler w' rsp w'.on_cpu h a ≡ some (w', got (widened status))))

module _ {w : World Graph} {a : ℕ} {ps : List ℕ} {ws : ℕ → Bool} {f : Table}
    (r : IsProgram w a ps ws f) (n : Node) (at : w.sched.heap a ≡ some n) (t : Task)
    (task : get_task w.pool n.h ≡ some t) (not_main : w.on_cpu ≢ 1)
    (kept_alive : t.orphaned ≡ false) (again would_block rsp : ℕ) (saved : 0 < rsp) (p : ℕ)
    (up : n.parent ≡ some p) where
  call_turn-Turned :
      (said : ℕ × ℕ)
      → (w' : World Graph) × (call_turn graph_vtable again would_block w rsp said ≡ ok w')
        × Turned w a ps ws f n.h p (blocks again would_block said) said.0 w'
  unfolding call_turn
  call_turn-Turned (status, errno) = elim (Bool-cases (blocks again would_block (status, errno))) [
    | inl e ↦
        let (w', skips, is) = async_skip-IsProgram r rsp saved in
        (w', rw (e, skips) refl, inl (e, is))
    | inr e ↦
        let (w', returns, is) =
          async_return-IsProgram r n at t task not_main kept_alive (widened status) in
        let (w₂, returns₂, cpu, resumes) =
          async_return-await_resume r n at t task not_main kept_alive (widened status) p up in
        let same : w₂ ≡ w' = ground (arith, returns, returns₂) in
        (w', rw e returns, inr (e, is, rw (← same) cpu, rw (← same) resumes))
  ]

  -- In a program, with a saved stack pointer that is not NULL, when the coroutine of `async_recv`
  -- has the processor, is not the first and not an orphan, another waits for it, and what stands at
  -- its arguments unpacks to them, whatever `recv` says its turn succeeds: when `recv` would block,
  -- the next coroutine of the queue has the processor in a program with the same nodes waiting;
  -- otherwise the one that waits has it, in a program too, and its `await` goes on with the status,
  -- widened.
  pub async_recv_impl-Turned :
      (recv : ℕ → ℕ → ℕ → ℕ → ℕ × ℕ) (mem : Memory) (fd buf amount flags size : ℕ)
      → unpack call_format mem ≡ some (some (call_args fd buf amount flags, size))
      → (w' : World Graph) × (async_recv_impl graph_vtable again would_block recv w rsp mem ≡ ok w')
        × Turned w a ps ws f n.h p
            (blocks again would_block (recv fd buf amount flags))
            (recv fd buf amount flags).0
            w'
  unfolding async_recv_impl
  async_recv_impl-Turned recv mem fd buf amount flags size unpacked =
      let (w', turns, left) = call_turn-Turned (recv fd buf amount flags) in
      (w', rw unpacked turns, left)
