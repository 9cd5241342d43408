-- ===== src/Tests/Machines.antt =====
-- Two coroutines on stacks at 1000 and 2000, and a third, which switches back, at 3000.
use c_async_await.Base.{ℕ, ◌≡◌, refl, inl, none, false, arith}
use c_async_await.Assembly.{
  Reg, rdi, rsi, rdx, rcx, r8, rsp, Machine, ended, exec, run_instr, async_switch_asm,
}
use c_async_await.Assembly.Context.{Kept}
use c_async_await.Assembly.RoundTrip.{IsSwitching, switched, asm-round_trip}

abbrev registers : ℕ → ℕ → ℕ → ℕ → Reg → ℕ
registers sp slot target first r = elim r [
  | rsp ↦ sp
  | rdi ↦ slot
  | rsi ↦ target
  | rdx ↦ first
  | rcx ↦ 77
  | r8 ↦ 78
  | _ ↦ 12
]

-- The frame at 2000 has the words of a coroutine all of whose registers are 9.
abbrev before : Machine
before = record { regs = registers 1048 5000 2000 0; mem = λ a. 9; zf = false }

before-IsSwitching : IsSwitching before 1000
before-IsSwitching = record { top = refl; high = omega arith; slot = omega arith }

abbrev back : Machine
back = record { regs = registers 3048 6000 1000 0; mem = (switched 7 before).mem; zf = false }

asm-round_trip_example :
    (m₃ : Machine) × (exec 7 async_switch_asm none back ≡ ended m₃)
    × (m₃.regs rsp ≡ 1048)
    × Kept m₃.regs before.regs
unfolding exec run_instr
asm-round_trip_example =
    asm-round_trip 7 before-IsSwitching {tp = 2000} {regs = λ r. 9} (omega arith)
      (inl (
        refl,
        refl,
        omega arith,
        omega arith,
        omega arith,
        record {
          word_rbp = refl;
          word_r15 = refl;
          word_r14 = refl;
          word_r13 = refl;
          word_r12 = refl;
          word_rbx = refl;
        },
      ))
      back 3000 (record { top = refl; high = omega arith; slot = omega arith }) refl refl
      (λ b lo hi. refl) (omega arith) (omega arith)

-- A coroutine that starts on an empty stack whose first word is at 2000.
abbrev fresh : Machine
fresh = record { regs = registers 1048 5000 2008 1; mem = λ a. 9; zf = false }
