-- ===== src/Sockets.antt =====
-- `await_async_recv`, `await_async_send` and `await_async_accept` of src/io.c. A system call is a
-- parameter: its status, as a bit pattern, and `errno`, at its arguments. EAGAIN and EWOULDBLOCK
-- are parameters too. A loop is cut into turns at its call of `async_skip`.
pub mod Calls
pub mod Coroutine
use c_async_await.Base.{ℕ, ◌-◌, ◌^◌, Option, some, ◌==◌, if◌then◌else◌, ◌>>=◌, ◌&&◌, ◌||◌}
use c_async_await.Scheduler.{SchedulerVTable, World, async_skip}
use c_async_await.Async.{Pending, value, pending}

-- -1 as an `int`
abbrev pub failed : ℕ
failed = 2 ^ 32 - 1

module _ {S : Type 0} (vtable : SchedulerVTable S) (again would_block : ℕ) where
  -- One turn: the status is final unless the call would block.
  unfoldable pub retry : World S → ℕ → ℕ × ℕ → Option (World S × Pending ℕ)
  retry w rsp (status, errno) =
      if status == failed && (errno == again || errno == would_block)
      then (async_skip vtable w rsp >>= λ w'. some (w', pending))
      else some (w, value status)

  unfoldable pub await_async_recv :
      (ℕ → ℕ → ℕ → ℕ → ℕ × ℕ) → World S → ℕ → ℕ → ℕ → ℕ → ℕ → Option (World S × Pending ℕ)
  unfolding retry
  await_async_recv recv w rsp fd buf n flags = retry w rsp (recv fd buf n flags)

  unfoldable pub await_async_send :
      (ℕ → ℕ → ℕ → ℕ → ℕ × ℕ) → World S → ℕ → ℕ → ℕ → ℕ → ℕ → Option (World S × Pending ℕ)
  unfolding retry
  await_async_send send w rsp fd buf n flags = retry w rsp (send fd buf n flags)

  unfoldable pub await_async_accept :
      (ℕ → ℕ → ℕ → ℕ × ℕ) → World S → ℕ → ℕ → ℕ → ℕ → Option (World S × Pending ℕ)
  unfolding retry
  await_async_accept accept w rsp fd addr addr_len = retry w rsp (accept fd addr addr_len)
