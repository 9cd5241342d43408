-- ===== src/Assembly/Context.antt =====
-- What the switch saves of one coroutine and restores of another.
use c_async_await.Base.{ℕ, ◌+◌, ◌^◌, ◌≤◌, ◌<◌, ◌≡◌, ◌≢◌, refl, ◌∙◌, ◌==◌, if◌then◌else◌, arith, ◌⊎◌}
use c_async_await.Assembly.{
  Reg, rsp, rbx, r12, r13, r14, r15, rbp, Machine, run_instr, number, pushq, popq, up, down,
}

-- The six words from `sp` up are the registers that a function must keep.
pub record Saved (mem : ℕ → ℕ) (sp : ℕ) (regs : Reg → ℕ) : Type 0 where
  pub word_rbp : mem sp ≡ regs rbp
  pub word_r15 : mem (sp + 8) ≡ regs r15
  pub word_r14 : mem (sp + 16) ≡ regs r14
  pub word_r13 : mem (sp + 24) ≡ regs r13
  pub word_r12 : mem (sp + 32) ≡ regs r12
  pub word_rbx : mem (sp + 40) ≡ regs rbx

-- The registers that a function must keep are the same.
pub record Kept (regs regs' : Reg → ℕ) : Type 0 where
  pub same_rbp : regs rbp ≡ regs' rbp
  pub same_r15 : regs r15 ≡ regs' r15
  pub same_r14 : regs r14 ≡ regs' r14
  pub same_r13 : regs r13 ≡ regs' r13
  pub same_r12 : regs r12 ≡ regs' r12
  pub same_rbx : regs rbx ≡ regs' rbx

-- A push goes to the word below the top and changes no other word and no other register.
pub pushq_lem :
    (r : Reg) (m : Machine) (sp : ℕ)
    → m.regs rsp ≡ sp + 8
    → sp + 8 < 2 ^ 64
    → ((run_instr (pushq r) m).regs rsp ≡ sp)
      × ((q : Reg) → number q ≢ 5 → (run_instr (pushq r) m).regs q ≡ m.regs q)
      × ((b : ℕ) → (run_instr (pushq r) m).mem b ≡ (if sp == b then m.regs r else m.mem b))
unfolding run_instr
pushq_lem r m sp top high =
    let e : down (m.regs rsp) ≡ sp = omega arith in (e, (λ q ne. ground arith), λ b. rw e)

-- A pop takes the word at the top.
pub popq_lem :
    (r : Reg) (m : Machine) (sp : ℕ)
    → m.regs rsp ≡ sp
    → sp + 8 < 2 ^ 64
    → number r ≢ 5
    → ((run_instr (popq r) m).regs rsp ≡ sp + 8)
      × ((q : Reg)
          → number q ≢ 5
          → (run_instr (popq r) m).regs q ≡ (if number r == number q then m.mem sp else m.regs q))
      × ((b : ℕ) → (run_instr (popq r) m).mem b ≡ m.mem b)
unfolding run_instr
popq_lem r m sp top high ne =
    let e : up (m.regs rsp) ≡ sp + 8 = omega arith in
    (ground (arith, e), (λ q nq. ground (arith, top)), λ b. refl)

abbrev pub pushed : Machine → Machine
pushed m = run_instr (pushq rbp) (
    run_instr (pushq r15) (
      run_instr (pushq r14)
        (run_instr (pushq r13) (run_instr (pushq r12) (run_instr (pushq rbx) m)))))

abbrev pub popped : Machine → Machine
popped m = run_instr (popq rbx) (
    run_instr (popq r12)
      (run_instr (popq r13) (run_instr (popq r14) (run_instr (popq r15) (run_instr (popq rbp) m)))))

module _ (m : Machine) (sp : ℕ) (top : m.regs rsp ≡ sp + 48) (high : sp + 48 < 2 ^ 64) where
  pub pushed_lem :
      Saved (pushed m).mem sp m.regs
      × ((pushed m).regs rsp ≡ sp)
      × ((q : Reg) → number q ≢ 5 → (pushed m).regs q ≡ m.regs q)
      × ((b : ℕ) → (b < sp) ⊎ (sp + 48 ≤ b) → (pushed m).mem b ≡ m.mem b)
  pushed_lem =
      let (t1, k1, w1) = pushq_lem rbx m (sp + 40) (omega arith) (omega arith) in
      let m1 = run_instr (pushq rbx) m in
      let (t2, k2, w2) = pushq_lem r12 m1 (sp + 32) (omega arith) (omega arith) in
      let m2 = run_instr (pushq r12) m1 in
      let (t3, k3, w3) = pushq_lem r13 m2 (sp + 24) (omega arith) (omega arith) in
      let m3 = run_instr (pushq r13) m2 in
      let (t4, k4, w4) = pushq_lem r14 m3 (sp + 16) (omega arith) (omega arith) in
      let m4 = run_instr (pushq r14) m3 in
      let (t5, k5, w5) = pushq_lem r15 m4 (sp + 8) (omega arith) (omega arith) in
      let m5 = run_instr (pushq r15) m4 in
      let (t6, k6, w6) = pushq_lem rbp m5 sp (omega arith) (omega arith) in
      let keep = λ (q : Reg) (ne : number q ≢ 5).
        k6 q ne ∙ (k5 q ne ∙ (k4 q ne ∙ (k3 q ne ∙ (k2 q ne ∙ k1 q ne)))) in
      (
        record {
          word_rbp = ground (arith, w6 sp, k5 rbp, k4 rbp, k3 rbp, k2 rbp, k1 rbp);
          word_r15 = ground (arith, w6 (sp + 8), w5 (sp + 8), k4 r15, k3 r15, k2 r15, k1 r15);
          word_r14 =
              ground (arith, w6 (sp + 16), w5 (sp + 16), w4 (sp + 16), k3 r14, k2 r14, k1 r14);
          word_r13 =
              ground
                (arith, w6 (sp + 24), w5 (sp + 24), w4 (sp + 24), w3 (sp + 24), k2 r13, k1 r13);
          word_r12 =
              ground (
                arith,
                w6 (sp + 32),
                w5 (sp + 32),
                w4 (sp + 32),
                w3 (sp + 32),
                w2 (sp + 32),
                k1 r12,
              );
          word_rbx = ground (
            arith,
            w6 (sp + 40),
            w5 (sp + 40),
            w4 (sp + 40),
            w3 (sp + 40),
            w2 (sp + 40),
            w1 (sp + 40),
          );
        },
        t6,
        keep,
        λ b out. ground (arith, w6 b, w5 b, w4 b, w3 b, w2 b, w1 b),
      )

module _ (m : Machine) (sp : ℕ) (top : m.regs rsp ≡ sp) (high : sp + 48 < 2 ^ 64) where
  -- The six pops bring back what is saved at the top.
  pub popped_lem :
      (regs : Reg → ℕ)
      → Saved m.mem sp regs
      → ((popped m).regs rsp ≡ sp + 48)
        × Kept (popped m).regs regs
        × ((b : ℕ) → (popped m).mem b ≡ m.mem b)
  popped_lem regs s =
      let (t1, k1, w1) = popq_lem rbp m sp top (omega arith) (omega arith) in
      let m1 = run_instr (popq rbp) m in
      let (t2, k2, w2) = popq_lem r15 m1 (sp + 8) (omega arith) (omega arith) (omega arith) in
      let m2 = run_instr (popq r15) m1 in
      let (t3, k3, w3) = popq_lem r14 m2 (sp + 16) (omega arith) (omega arith) (omega arith) in
      let m3 = run_instr (popq r14) m2 in
      let (t4, k4, w4) = popq_lem r13 m3 (sp + 24) (omega arith) (omega arith) (omega arith) in
      let m4 = run_instr (popq r13) m3 in
      let (t5, k5, w5) = popq_lem r12 m4 (sp + 32) (omega arith) (omega arith) (omega arith) in
      let m5 = run_instr (popq r12) m4 in
      let (t6, k6, w6) = popq_lem rbx m5 (sp + 40) (omega arith) (omega arith) (omega arith) in
      (
        omega arith,
        record {
          same_rbp = ground (arith, k6 rbp, k5 rbp, k4 rbp, k3 rbp, k2 rbp, k1 rbp, s.word_rbp);
          same_r15 =
              ground (arith, k6 r15, k5 r15, k4 r15, k3 r15, k2 r15, w1 (sp + 8), s.word_r15);
          same_r14 =
              ground
                (arith, k6 r14, k5 r14, k4 r14, k3 r14, w2 (sp + 16), w1 (sp + 16), s.word_r14);
          same_r13 =
              ground (
                arith,
                k6 r13,
                k5 r13,
                k4 r13,
                w3 (sp + 24),
                w2 (sp + 24),
                w1 (sp + 24),
                s.word_r13,
              );
          same_r12 = ground (
            arith,
            k6 r12,
            k5 r12,
            w4 (sp + 32),
            w3 (sp + 32),
            w2 (sp + 32),
            w1 (sp + 32),
            s.word_r12,
          );
          same_rbx = ground (
            arith,
            k6 rbx,
            w5 (sp + 40),
            w4 (sp + 40),
            w3 (sp + 40),
            w2 (sp + 40),
            w1 (sp + 40),
            s.word_rbx,
          );
        },
        λ b. w6 b ∙ (w5 b ∙ (w4 b ∙ (w3 b ∙ (w2 b ∙ w1 b)))),
      )
