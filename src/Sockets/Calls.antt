-- ===== src/Sockets/Calls.antt =====
-- `async_recv`, `async_send` and `async_accept` of src/io.c: the arguments go through a buffer to a
-- coroutine that makes the call. `mem` is the memory from that buffer on; `rsp` as in the parent.
use c_async_await.Base.{
  ℕ, ◌+◌, ◌-◌, ◌^◌, Option, some, List, [], ◌∷◌, ltb, if◌then◌else◌, ◌==◌, ◌&&◌, ◌||◌, Outcome, ok,
  fault, lift, bind,
}
use c_async_await.Scheduler.{SchedulerVTable, World, async_skip}
use c_async_await.Async.{async_call, async_return}
use c_async_await.Marshal.{Memory, Arg, int32, pointer, pack, unpack}
use c_async_await.Sockets.{failed}

-- "ipii"
abbrev pub call_format : List ℕ
call_format = b'i' ∷ b'p' ∷ b'i' ∷ b'i' ∷ []

-- "ipp"
abbrev pub accept_format : List ℕ
accept_format = b'i' ∷ b'p' ∷ b'p' ∷ []

-- `char arg_buf[256] = {0}`
abbrev pub arg_buf : Memory → Memory
arg_buf mem = λ q. if ltb q 256 then 0 else mem q

-- `(void *)(long)status`
abbrev pub widened : ℕ → ℕ
widened status = if ltb status (2 ^ 31) then status else status + 2 ^ 64 - 2 ^ 32

abbrev pub call_args : ℕ → ℕ → ℕ → ℕ → List Arg
call_args fd buf n flags = (int32, fd) ∷ (pointer, buf) ∷ (int32, n) ∷ (int32, flags) ∷ []

abbrev pub accept_args : ℕ → ℕ → ℕ → List Arg
accept_args fd addr addr_len = (int32, fd) ∷ (pointer, addr) ∷ (pointer, addr_len) ∷ []

module _ {S : Type 0} (vtable : SchedulerVTable S) (again would_block : ℕ) where
  -- The new coroutine, and the memory with its arguments at `args`.
  unfoldable pub call_packed :
      List ℕ → List Arg → Option ℕ → ℕ → ℕ → Memory → World S → Outcome (World S × ℕ × Memory)
  call_packed format values mmap impl args mem w =
      bind (lift (pack 256 format values (arg_buf mem)))
        λ p. bind (async_call vtable mmap impl args w) λ r. ok (r.0, r.1, p.0)

  -- `impl` is the address of `async_recv_impl` here, of `async_send_impl` and `async_accept_impl`
  -- below.
  unfoldable pub async_recv :
      Option ℕ → ℕ → ℕ → Memory → World S → ℕ → ℕ → ℕ → ℕ → Outcome (World S × ℕ × Memory)
  unfolding call_packed
  async_recv mmap impl args mem w fd buf n flags =
      call_packed call_format (call_args fd buf n flags) mmap impl args mem w

  unfoldable pub async_send :
      Option ℕ → ℕ → ℕ → Memory → World S → ℕ → ℕ → ℕ → ℕ → Outcome (World S × ℕ × Memory)
  unfolding call_packed
  async_send mmap impl args mem w fd buf n flags =
      call_packed call_format (call_args fd buf n flags) mmap impl args mem w

  unfoldable pub async_accept :
      Option ℕ → ℕ → ℕ → Memory → World S → ℕ → ℕ → ℕ → Outcome (World S × ℕ × Memory)
  unfolding call_packed
  async_accept mmap impl args mem w fd addr addr_len =
      call_packed accept_format (accept_args fd addr addr_len) mmap impl args mem w

  -- A turn of the loop of a coroutine, which skips or returns its status; what the system call says
  -- is an argument.
  unfoldable pub call_turn : World S → ℕ → ℕ × ℕ → Outcome (World S)
  call_turn w rsp (status, errno) =
      if status == failed && (errno == again || errno == would_block)
      then lift (async_skip vtable w rsp)
      else async_return vtable w (widened status)

  -- The first turn of a coroutine, which reads its arguments from `mem`, whatever stands at `args`
  -- by then: the buffer that they were packed in is gone when `async_recv` has returned. A later
  -- turn is one of `call_turn` with the same call.
  unfoldable pub async_recv_impl :
      (ℕ → ℕ → ℕ → ℕ → ℕ × ℕ) → World S → ℕ → Memory → Outcome (World S)
  unfolding call_turn
  async_recv_impl recv w rsp mem = bind (lift (unpack call_format mem)) λ r. elim r [
    | some (((_, fd) ∷ (_, buf) ∷ (_, n) ∷ (_, flags) ∷ []), _) ↦
        call_turn w rsp (recv fd buf n flags)
    | _ ↦ fault
  ]

  unfoldable pub async_send_impl :
      (ℕ → ℕ → ℕ → ℕ → ℕ × ℕ) → World S → ℕ → Memory → Outcome (World S)
  unfolding call_turn
  async_send_impl send w rsp mem = bind (lift (unpack call_format mem)) λ r. elim r [
    | some (((_, fd) ∷ (_, buf) ∷ (_, n) ∷ (_, flags) ∷ []), _) ↦
        call_turn w rsp (send fd buf n flags)
    | _ ↦ fault
  ]

  unfoldable pub async_accept_impl : (ℕ → ℕ → ℕ → ℕ × ℕ) → World S → ℕ → Memory → Outcome (World S)
  unfolding call_turn
  async_accept_impl accept w rsp mem = bind (lift (unpack accept_format mem)) λ r. elim r [
    | some (((_, fd) ∷ (_, addr) ∷ (_, addr_len) ∷ []), _) ↦
        call_turn w rsp (accept fd addr addr_len)
    | _ ↦ fault
  ]
