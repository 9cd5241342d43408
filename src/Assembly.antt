-- ===== src/Assembly.antt =====
-- `async_switch_asm` of src/switch.c, instruction by instruction. Memory is words of 8 bytes at the
-- addresses that are multiples of 8; all addresses here are.
pub mod Context
pub mod Run
pub mod RoundTrip
use c_async_await.Base.{
  ℕ, zero, suc, ◌+◌, ◌-◌, ◌*◌, ◌%◌, ◌^◌, Bool, true, false, Option, none, some, List, [], ◌∷◌, ◌==◌,
  if◌then◌else◌,
}

-- The registers that the code names. The first five hold the arguments.
pub data Reg : Type 0 where
  rdi rsi rdx rcx r8 rsp rbx r12 r13 r14 r15 rbp : Reg

abbrev pub number : Reg → ℕ
number rdi = 0
number rsi = 1
number rdx = 2
number rcx = 3
number r8 = 4
number rsp = 5
number rbx = 6
number r12 = 7
number r13 = 8
number r14 = 9
number r15 = 10
number rbp = 11

-- `zf` is the flag that `cmpq` sets and `je` reads.
pub record Machine : Type 0 where
  pub regs : Reg → ℕ
  pub mem : ℕ → ℕ
  pub zf : Bool

abbrev pub set_reg : Reg → ℕ → Machine → Machine
set_reg r v m = record m { regs = λ q. if number r == number q then v else m.regs q }

abbrev pub set_word : ℕ → ℕ → Machine → Machine
set_word a v m = record m { mem = λ b. if a == b then v else m.mem b }

-- The 64-bit sums of the stack pointer with 8 and -8.
abbrev pub up : ℕ → ℕ
up a = (a + 8) % 2 ^ 64

abbrev pub down : ℕ → ℕ
down a = (a + 2 ^ 64 - 8) % 2 ^ 64

pub data Instr : Type 0 where
  pushq popq cmpq_zero call : Reg → Instr
  movq store : Reg → Reg → Instr
  je label : ℕ → Instr
  int3 : Instr

-- How the block is left: by its end, by a call of the function at an address, or by the trap.
pub data Left : Type 0 where
  ended : Machine → Left
  called : ℕ → Machine → Left
  trapped : Left

-- One instruction that goes on to the next. `store r s` is `movq %r, (%s)`.
unfoldable pub run_instr : Instr → Machine → Machine
run_instr (pushq r) m = let sp = down (m.regs rsp) in set_reg rsp sp (set_word sp (m.regs r) m)
run_instr (popq r) m = let sp = m.regs rsp in set_reg r (m.mem sp) (set_reg rsp (up sp) m)
run_instr (cmpq_zero r) m = record m { zf = m.regs r == 0 }
run_instr (movq r s) m = set_reg s (m.regs r) m
run_instr (store r s) m = set_word (m.regs s) (m.regs r) m
run_instr _ m = m

-- The jumps go forward: `seek` is the label that is looked for. `here` is the return address that
-- a call pushes.
unfoldable pub exec : ℕ → List Instr → Option ℕ → Machine → Left
unfolding run_instr
exec here [] seek m = ended m
exec here (label l ∷ is) none m = exec here is none m
exec here (label l ∷ is) (some k) m = exec here is (if l == k then none else some k) m
exec here (je l ∷ is) none m = exec here is (if m.zf then some l else none) m
exec here (call r ∷ is) none m =
    let sp = down (m.regs rsp) in called (m.regs r) (set_reg rsp sp (set_word sp here m))
exec here (int3 ∷ is) none m = trapped
exec here (pushq r ∷ is) none m = exec here is none (run_instr (pushq r) m)
exec here (popq r ∷ is) none m = exec here is none (run_instr (popq r) m)
exec here (cmpq_zero r ∷ is) none m = exec here is none (run_instr (cmpq_zero r) m)
exec here (movq r s ∷ is) none m = exec here is none (run_instr (movq r s) m)
exec here (store r s ∷ is) none m = exec here is none (run_instr (store r s) m)
exec here (i ∷ is) (some k) m = exec here is (some k) m

abbrev pub async_switch_asm : List Instr
async_switch_asm =
    pushq rbx
    ∷ pushq r12
    ∷ pushq r13
    ∷ pushq r14
    ∷ pushq r15
    ∷ pushq rbp
    ∷ cmpq_zero rdi
    ∷ je 2
    ∷ store rsp rdi
    ∷ label 2
    ∷ movq rsi rsp
    ∷ cmpq_zero rdx
    ∷ je 1
    ∷ movq r8 rdi
    ∷ call rcx
    ∷ int3
    ∷ label 1
    ∷ popq rbp
    ∷ popq r15
    ∷ popq r14
    ∷ popq r13
    ∷ popq r12
    ∷ popq rbx
    ∷ []
