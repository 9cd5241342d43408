-- ===== src/Assembly/RoundTrip.antt =====
-- A coroutine that switches away and is switched back to goes on as if the switch had returned.
use c_async_await.Base.{ℕ, ◌+◌, ◌^◌, ◌≤◌, ◌<◌, ◌≡◌, ◌≢◌, ◌∙◌, sym, ap, none, arith, ◌⊎◌, inl, inr}
use c_async_await.Assembly.{
  Reg, rdi, rsi, rdx, rcx, r8, rsp, number, Machine, Left, ended, called, trapped, exec,
  async_switch_asm, down,
}
use c_async_await.Assembly.Context.{Saved, Kept, pushed, popped, pushed_lem, popped_lem}
use c_async_await.Assembly.Run.{
  stored_lem, saved, entered, begun, exec-saved, exec-resumed, exec-begun,
}

-- The frame of 48 bytes below the top of the stack is where a coroutine is saved.
abbrev pub Outside : ℕ → ℕ → Type 0
Outside a sp = (a < sp) ⊎ (sp + 48 ≤ a)

-- A machine that is about to switch: its frame is at `sp`, and its slot, if any, is elsewhere.
pub record IsSwitching (m : Machine) (sp : ℕ) : Type 0 where
  pub top : m.regs rsp ≡ sp + 48
  pub high : sp + 48 < 2 ^ 64
  pub slot : Outside (m.regs rdi) sp

saved_lem :
    (m : Machine) (sp : ℕ)
    → IsSwitching m sp
    → Saved (saved m).mem sp m.regs
      × (m.regs rdi ≢ 0 → (saved m).mem (m.regs rdi) ≡ sp)
      × ((b : ℕ) → Outside b sp → m.regs rdi ≢ b → (saved m).mem b ≡ m.mem b)
      × ((q : Reg) → number q ≢ 5 → (saved m).regs q ≡ m.regs q)
saved_lem m sp w =
    let (s, t, k, old) = pushed_lem m sp w.top w.high in
    let slot : (pushed m).regs rdi ≡ m.regs rdi = k rdi (omega arith) in
    let (v, at, r) = stored_lem (pushed m) in
    let far : (b : ℕ) → m.regs rdi ≢ b → (saved m).mem b ≡ (pushed m).mem b =
      λ b d. v b (λ e. d (sym slot ∙ e)) in
    (
      record {
        word_rbp = far sp (omega (arith, w.slot)) ∙ s.word_rbp;
        word_r15 = far (sp + 8) (omega (arith, w.slot)) ∙ s.word_r15;
        word_r14 = far (sp + 16) (omega (arith, w.slot)) ∙ s.word_r14;
        word_r13 = far (sp + 24) (omega (arith, w.slot)) ∙ s.word_r13;
        word_r12 = far (sp + 32) (omega (arith, w.slot)) ∙ s.word_r12;
        word_rbx = far (sp + 40) (omega (arith, w.slot)) ∙ s.word_rbx;
      },
      (λ n. rw slot at (at (λ e. n (sym slot ∙ e)) ∙ t)),
      (λ b o d. far b d ∙ old b o),
      λ q ne. r q ∙ k q ne,
    )

Saved-agree :
    {mem mem' : ℕ → ℕ} {sp : ℕ} {regs : Reg → ℕ}
    → ((b : ℕ) → sp ≤ b → b < sp + 48 → mem' b ≡ mem b)
    → Saved mem sp regs
    → Saved mem' sp regs
Saved-agree {sp = sp} same s = record {
  word_rbp = same sp (omega arith) (omega arith) ∙ s.word_rbp;
  word_r15 = same (sp + 8) (omega arith) (omega arith) ∙ s.word_r15;
  word_r14 = same (sp + 16) (omega arith) (omega arith) ∙ s.word_r14;
  word_r13 = same (sp + 24) (omega arith) (omega arith) ∙ s.word_r13;
  word_r12 = same (sp + 32) (omega arith) (omega arith) ∙ s.word_r12;
  word_rbx = same (sp + 40) (omega arith) (omega arith) ∙ s.word_rbx;
}

-- Two frames have no word in common.
abbrev pub Apart : ℕ → ℕ → Type 0
Apart sp tp = (tp + 48 ≤ sp) ⊎ (sp + 48 ≤ tp)

module _ (here : ℕ) (m : Machine) (sp : ℕ) (w : IsSwitching m sp) where
  pub asm-resumed :
      (tp : ℕ) (regs : Reg → ℕ)
      → m.regs rsi ≡ tp
      → m.regs rdx ≡ 0
      → tp + 48 < 2 ^ 64
      → Apart sp tp
      → Outside (m.regs rdi) tp
      → Saved m.mem tp regs
      → (m' : Machine) × (exec here async_switch_asm none m ≡ ended m')
        × (m'.regs rsp ≡ tp + 48)
        × Kept m'.regs regs
        × Saved m'.mem sp m.regs
        × (m.regs rdi ≢ 0 → m'.mem (m.regs rdi) ≡ sp)
        × ((b : ℕ) → Outside b sp → m.regs rdi ≢ b → m'.mem b ≡ m.mem b)
  asm-resumed tp regs target resume high apart slot s =
      let (mine, at, old, k) = saved_lem m sp w in
      let e = entered (saved m) in
      let again : (saved m).regs rdx ≡ 0 = k rdx (omega arith) ∙ resume in
      let top : e.regs rsp ≡ tp = k rsi (omega arith) ∙ target in
      let theirs : Saved e.mem tp regs =
        Saved-agree (λ b lo hi. old b (omega arith) (omega arith)) s in
      let (t, kept, same) = popped_lem e tp top high regs theirs in
      (
        popped e,
        exec-saved here m ∙ exec-resumed here (saved m) again,
        t,
        kept,
        Saved-agree (λ b lo hi. same b) mine,
        (λ n. same (m.regs rdi) ∙ at n),
        λ b o d. same b ∙ old b o d,
      )

  -- When a coroutine switches to one that starts, with the flag for it set and the stacks apart,
  -- the block ends in a call of the function, with the argument in its register and the return
  -- address on the new stack; the registers of the old coroutine are saved in its frame, its slot,
  -- if it has one, has the address of the frame, and no other word has changed.
  pub asm-begun :
      (tp : ℕ)
      → m.regs rsi ≡ tp + 8
      → m.regs rdx ≢ 0
      → tp + 8 < 2 ^ 64
      → Outside tp sp
      → m.regs rdi ≢ tp
      → (m' : Machine) × (exec here async_switch_asm none m ≡ called (m.regs rcx) m')
        × (m'.regs rdi ≡ m.regs r8)
        × (m'.regs rsp ≡ tp)
        × (m'.mem tp ≡ here)
        × Saved m'.mem sp m.regs
        × (m.regs rdi ≢ 0 → m'.mem (m.regs rdi) ≡ sp)
        × ((b : ℕ) → Outside b sp → m.regs rdi ≢ b → tp ≢ b → m'.mem b ≡ m.mem b)
  asm-begun tp target first high out slot =
      let (mine, at, old, k) = saved_lem m sp w in
      let top : down ((saved m).regs rsi) ≡ tp = omega (arith, k rsi (omega arith)) in
      let same : (b : ℕ) → tp ≢ b → (begun here (saved m)).mem b ≡ (saved m).mem b =
        λ b d. ground (arith, top) in
      (
        begun here (saved m),
        exec-saved here m
            ∙ (exec-begun here (saved m) (λ e. first (sym (k rdx (omega arith)) ∙ e))
                ∙ ap (λ f. called f (begun here (saved m))) (k rcx (omega arith))),
        k r8 (omega arith),
        top,
        ground (arith, top),
        Saved-agree (λ b lo hi. same b (omega arith)) mine,
        (λ n. same (m.regs rdi) (λ e. slot (sym e)) ∙ at n),
        λ b o d d'. same b d' ∙ old b o d,
      )

-- The machine when the block is left.
abbrev pub machine_of : Machine → Left → Machine
machine_of m (ended m') = m'
machine_of m (called f m') = m'
machine_of m trapped = m

abbrev pub switched : ℕ → Machine → Machine
switched here m = machine_of m (exec here async_switch_asm none m)

-- The stack that is switched to: of a coroutine that is saved at `tp`, or of one that begins with
-- the word at `tp`.
abbrev pub Target : Machine → ℕ → ℕ → (Reg → ℕ) → Type 0
Target m sp tp regs =
    ((m.regs rsi ≡ tp)
      × (m.regs rdx ≡ 0)
      × (tp + 48 < 2 ^ 64)
      × Apart sp tp
      × Outside (m.regs rdi) tp
      × Saved m.mem tp regs)
    ⊎ ((m.regs rsi ≡ tp + 8)
        × (m.regs rdx ≢ 0)
        × (tp + 8 < 2 ^ 64)
        × Outside tp sp
        × (m.regs rdi ≢ tp))

module _ (here : ℕ) {m : Machine} {sp : ℕ} (w : IsSwitching m sp) {tp : ℕ} {regs : Reg → ℕ} where
  kept_frame :
      m.regs rdi ≢ 0
      → Target m sp tp regs
      → Saved (switched here m).mem sp m.regs × ((switched here m).mem (m.regs rdi) ≡ sp)
  kept_frame some_slot (inl (target, resume, high, apart, slot, s)) =
      let (m', e, _, _, mine, at, _) =
        asm-resumed here m sp w tp regs target resume high apart slot s in
      rw e (mine, at some_slot)
  kept_frame some_slot (inr (target, first, high, out, slot)) =
      let (m', e, _, _, _, mine, at, _) = asm-begun here m sp w tp target first high out slot in
      rw e (mine, at some_slot)

  -- A coroutine that switches away with a slot for its stack pointer, to a coroutine that is saved
  -- elsewhere or to one that begins elsewhere, and is later switched to with what is then in the
  -- slot, its frame of 48 bytes unchanged and that of the one that switches back apart from it,
  -- goes on with the stack pointer and the six kept registers that it had.
  pub asm-round_trip :
      m.regs rdi ≢ 0
      → Target m sp tp regs
      → (m₂ : Machine) (sp₂ : ℕ) → IsSwitching m₂ sp₂
      → m₂.regs rsi ≡ (switched here m).mem (m.regs rdi)
      → m₂.regs rdx ≡ 0
      → ((b : ℕ) → sp ≤ b → b < sp + 48 → m₂.mem b ≡ (switched here m).mem b)
      → Apart sp₂ sp
      → Outside (m₂.regs rdi) sp
      → (m₃ : Machine) × (exec here async_switch_asm none m₂ ≡ ended m₃)
        × (m₃.regs rsp ≡ m.regs rsp)
        × Kept m₃.regs m.regs
  asm-round_trip some_slot target m₂ sp₂ w₂ back resume same apart slot =
      let (mine, at) = kept_frame some_slot target in
      let (m₃, e, t, kept, _, _, _) =
        asm-resumed here m₂ sp₂ w₂ sp m.regs (back ∙ at) resume w.high apart slot
          (Saved-agree same mine) in
      (m₃, e, t ∙ sym w.top, kept)
