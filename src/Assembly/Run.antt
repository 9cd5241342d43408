-- ===== src/Assembly/Run.antt =====
-- How the switch runs: past the save of the old context to the new stack, and from there on.
use c_async_await.Base.{
  ℕ, ◌≡◌, ◌≢◌, refl, ap, Bool, true, false, none, some, List, [], ◌∷◌, ◌==◌, if◌then◌else◌, arith,
  inl, inr, Bool-cases,
}
use c_async_await.Assembly.{
  Reg, rdi, rsi, rdx, rcx, r8, rsp, rbx, r12, r13, r14, r15, rbp, store, Machine, Instr, movq,
  cmpq_zero, je, call, int3, label, popq, ended, called, exec, run_instr, async_switch_asm, down,
  set_reg, set_word,
}
use c_async_await.Assembly.Context.{pushed, popped}

-- What stands behind the second jump, and what stands behind the first.
abbrev last_part : List Instr
last_part =
    movq r8 rdi
    ∷ call rcx
    ∷ int3
    ∷ label 1
    ∷ popq rbp
    ∷ popq r15
    ∷ popq r14
    ∷ popq r13
    ∷ popq r12
    ∷ popq rbx
    ∷ []

abbrev second_half : List Instr
second_half = movq rsi rsp ∷ cmpq_zero rdx ∷ je 1 ∷ last_part

exec-je :
    (here l : ℕ) (is : List Instr) (m : Machine) (z : Bool)
    → m.zf ≡ z
    → exec here (je l ∷ is) none m ≡ exec here is (if z then some l else none) m
unfolding exec
exec-je here l is m z e = ap (λ b. exec here is (if b then some l else none) m) e

abbrev tested : Reg → Machine → Machine
tested r m = record m { zf = m.regs r == 0 }

-- The stack pointer goes to the slot of the old coroutine, if there is one.
pub stored : Machine → Machine
stored m = let p = tested rdi m in if p.zf then p else set_word (p.regs rdi) (p.regs rsp) p

pub stored_lem :
    (m : Machine)
    → ((b : ℕ) → m.regs rdi ≢ b → (stored m).mem b ≡ m.mem b)
      × (m.regs rdi ≢ 0 → (stored m).mem (m.regs rdi) ≡ m.regs rsp)
      × ((q : Reg) → (stored m).regs q ≡ m.regs q)
unfolding stored
stored_lem m = elim (Bool-cases (m.regs rdi == 0)) [
  | inl e ↦ rw e ((λ b d. refl), (λ n. absurd (ground arith)), λ q. refl)
  | inr e ↦ rw e ((λ b d. ground arith), (λ n. ground arith), λ q. refl)
]

-- The machine when the context of the old coroutine is saved.
abbrev pub saved : Machine → Machine
saved m = stored (pushed m)

-- The machine when the stack of the new one is set.
abbrev pub entered : Machine → Machine
entered m = tested rdx (set_reg rsp (m.regs rsi) m)

-- The machine when the function of a new coroutine is called.
abbrev pub begun : ℕ → Machine → Machine
begun here m =
    let e = set_reg rdi (m.regs r8) (entered m) in
    let sp = down (e.regs rsp) in set_reg rsp sp (set_word sp here e)

pub exec-saved :
    (here : ℕ) (m : Machine)
    → exec here async_switch_asm none m ≡ exec here second_half none (saved m)
unfolding exec run_instr stored
exec-saved here m = go (pushed m).regs (pushed m).mem ((pushed m).regs rdi == 0) refl
  where
    go :
        (regs : Reg → ℕ) (mem : ℕ → ℕ) (z : Bool)
        → (regs rdi == 0) ≡ z
        → exec here
            (je 2 ∷ store rsp rdi ∷ label 2 ∷ second_half)
            none
            (record { regs = regs; mem = mem; zf = regs rdi == 0 })
          ≡ exec here second_half none (
              let p : Machine = record { regs = regs; mem = mem; zf = regs rdi == 0 } in
              if z then p else set_word (p.regs rdi) (p.regs rsp) p)
    go regs mem true e = exec-je here 2 (store rsp rdi ∷ label 2 ∷ second_half) _ true e
    go regs mem false e = exec-je here 2 (store rsp rdi ∷ label 2 ∷ second_half) _ false e

pub exec-resumed :
    (here : ℕ) (m : Machine)
    → m.regs rdx ≡ 0
    → exec here second_half none m ≡ ended (popped (entered m))
unfolding exec run_instr
exec-resumed here m e = exec-je here 1 last_part (entered m) true (ground arith)

pub exec-begun :
    (here : ℕ) (m : Machine)
    → m.regs rdx ≢ 0
    → exec here second_half none m ≡ called (m.regs rcx) (begun here m)
unfolding exec run_instr
exec-begun here m e = exec-je here 1 last_part (entered m) false (ground arith)
