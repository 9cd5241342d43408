-- ===== src/Epoll/Parts.antt =====
-- What an update of a reading client does to the message: nothing yet, more of it, or all of it.
use c_async_await.Base.{
  ℕ, ◌+◌, ◌-◌, ◌*◌, ◌≤◌, ◌≡◌, ◌⊎◌, inl, inr, refl, ◌∙◌, sym, ap, Bool, true, false, some, List, [],
  ◌++◌, ltb, int_max, length, take, arith, Bool-cases, length-append, take-length, le→leb,
}
use mathlib.Core.List.{append_assoc, append-nil}
use c_async_await.Echo.{ntohl}
use c_async_await.Epoll.{writing, Client, to_read, read_size, read_text, read_buffered}
use c_async_await.Epoll.Bytes.{unread, Reads, TextRead, read_size-SizeRead, read_text-TextRead}
use c_async_await.Epoll.State.{IsReading, seen, Progress}

-- What the loop over the size leaves.
pub record Sized (c c₁ : Client) (text : List ℕ) (complete : Bool) : Type 0 where
  pub reads : Reads c c₁ complete
  pub same : seen c₁ text ++ unread c₁ ≡ seen c text ++ unread c
  pub all : complete ≡ true → c₁.size_ptr ≡ 4
  pub few : c₁.size_ptr ≤ 4
  pub same_msg : c₁.msg ≡ c.msg
  pub same_ptr : c₁.msg_ptr ≡ c.msg_ptr
  pub shorter : length (unread c₁) ≤ length (unread c)
  pub fresh : (text ≡ []) ⊎ ((complete ≡ true) × (c.size_ptr ≡ 4) × (c₁.size ≡ c.size))

pub size_read :
    (c : Client) (text : List ℕ)
    → IsReading c text
    → (complete : Bool) × (c₁ : Client) × (read_size (4 - c.size_ptr) c ≡ some (complete, c₁))
      × Sized c c₁ text complete
unfolding read_size
size_read c text r =
    let (complete, c₁, runs, s) =
      read_size-SizeRead (4 - c.size_ptr) c r.buffered (omega (arith, r.few)) in
    elim (Bool-cases (ltb c.size_ptr 4)) [
      | inl more ↦
          let none_yet = r.begins (ground arith) in
          (
            complete,
            c₁,
            runs,
            record {
              reads = s.reads;
              same =
                  rw
                    (
                      none_yet,
                      append-nil (take c₁.size_ptr c₁.size),
                      append-nil (take c.size_ptr c.size),
                    )
                    s.same;
              all = s.all;
              few = s.few;
              same_msg = s.same_msg;
              same_ptr = s.same_ptr;
              shorter = s.shorter;
              fresh = inl none_yet;
            },
          )
      | inr done ↦
          let four : c.size_ptr ≡ 4 = ground (arith, r.few) in
          (
            true,
            c,
            ap (λ k. read_size (4 - k) c) four,
            record {
              reads = record {
                buffered = r.buffered;
                empty = λ e. ground arith;
                same_mode = refl;
                processed = refl;
              };
              same = refl;
              all = λ e. four;
              few = r.few;
              same_msg = refl;
              same_ptr = refl;
              shorter = omega arith;
              fresh = inr (refl, four, refl);
            },
          )
    ]

to_read_total : (n k : ℕ) → n ≤ int_max → k ≤ n → k + to_read n k ≡ n
to_read_total n k small le = ground arith

module _ {c c₁ : Client} {text : List ℕ} (r : IsReading c text) where
  -- The size is not there yet.
  pub size_stopped : Sized c c₁ text false → Progress c c₁ (seen c text ++ unread c)
  size_stopped s =
      let fresh : text ≡ [] = elim s.fresh [ inl e ↦ e | inr (e, _, _) ↦ absurd (ground arith) ] in
      let empty = s.reads.empty refl in
      (
        text,
        inl (
          s.reads.same_mode,
          record {
            buffered = s.reads.buffered;
            few = s.few;
            holds = rw s.same_msg r.holds;
            counted = s.same_ptr ∙ r.counted;
            begins = λ lt. fresh;
            within = λ n e e' small. omega (arith, ap length fresh);
          },
          empty,
          sym (append-nil (seen c₁ text)) ∙ (ap (seen c₁ text ++◌) (sym empty) ∙ s.same),
        ),
      )

  module _ (s : Sized c c₁ text true) {n : ℕ} (announced : ntohl c₁.size ≡ some n) where
    text_within : n ≤ int_max → length text ≤ n
    text_within small = elim s.fresh [
      | inl e ↦ omega (arith, ap length e)
      | inr (_, four, same) ↦ r.within n four (ap ntohl (sym same) ∙ announced) small
    ]

    pointer : c₁.msg_ptr ≡ length text
    pointer = s.same_ptr ∙ r.counted

    module _ {c₂ : Client} {complete : Bool}
        (t : TextRead c₁ c₂ text (to_read n c₁.msg_ptr) complete) where
      four_read : c₂.size_ptr ≡ 4
      four_read = t.same_size_ptr ∙ s.all refl

      prefix : seen c₂ t.text ≡ c₁.size ++ t.text
      prefix =
          let all : take c₂.size_ptr c₂.size ≡ take (length c₁.size) c₁.size =
            rw (four_read, t.same_size, s.reads.buffered.four) refl in
          ap (◌++ t.text) (all ∙ take-length c₁.size)

      nothing_lost : seen c₂ t.text ++ unread c₂ ≡ seen c text ++ unread c
      nothing_lost =
          let size : take c₂.size_ptr c₂.size ≡ take c₁.size_ptr c₁.size =
            rw (t.same_size_ptr, t.same_size) refl in
          append_assoc (take c₂.size_ptr c₂.size) t.text (unread c₂)
          ∙ (ap (◌++ (t.text ++ unread c₂)) size
              ∙ (ap (take c₁.size_ptr c₁.size ++◌) t.same
                  ∙ (sym (append_assoc (take c₁.size_ptr c₁.size) text (unread c₁)) ∙ s.same)))

      bounded : (m : ℕ) → ntohl c₂.size ≡ some m → m ≤ int_max → length t.text ≤ m
      bounded m e small =
          let same : m ≡ n = ground (arith, announced, ap ntohl t.same_size) in
          let total =
            to_read_total n (length text) (omega (arith, same))
              (text_within (omega (arith, same))) in
          let left : to_read n c₁.msg_ptr ≡ to_read n (length text) = ap (to_read n) pointer in
          omega (arith, t.bound, total, left, same)

  -- The text is not all there yet.
  text_stopped :
      {n : ℕ} {c₂ : Client}
      → (s : Sized c c₁ text true) → ntohl c₁.size ≡ some n
      → (t : TextRead c₁ c₂ text (to_read n c₁.msg_ptr) false)
      → Progress c c₂ (seen c text ++ unread c)
  text_stopped {c₂ = c₂} s announced t =
      let empty = t.reads.empty refl in
      let four = four_read s announced t in
      (
        t.text,
        inl (
          t.reads.same_mode ∙ s.reads.same_mode,
          record {
            buffered = t.reads.buffered;
            few = omega (arith, four);
            holds = t.holds;
            counted = omega (arith, t.counted, pointer s announced);
            begins = λ lt. absurd (omega (arith, four));
            within = λ m e e' small. bounded s announced t m e' small;
          },
          empty,
          sym (append-nil (seen c₂ t.text))
              ∙ (ap (seen c₂ t.text ++◌) (sym empty) ∙ nothing_lost s announced t),
        ),
      )

  -- The client once the message is whole.
  text_whole :
      {n : ℕ} {c₂ : Client}
      → (s : Sized c c₁ text true) → ntohl c₁.size ≡ some n
      → (t : TextRead c₁ c₂ text (to_read n c₁.msg_ptr) true)
      → Progress c
          (record c₂ {
            msg_ptr = 0;
            size_ptr = 0;
            mode = writing;
            bytes_processed = c₂.bytes_processed + (c₂.msg.len + 4);
          })
          (seen c text ++ unread c)
  text_whole {n} {c₂} s announced t = (
    t.text,
    inr (
      refl,
      t.holds,
      (
        n,
        ap ntohl t.same_size ∙ announced,
        λ small.
            t.all refl
            ∙ (ap (λ k. length text + to_read n k) (pointer s announced)
                ∙ to_read_total n (length text) small (text_within s announced small)),
      ),
      refl,
      refl,
      record {
        ordered = t.reads.buffered.ordered;
        inside = t.reads.buffered.inside;
        four = t.reads.buffered.four;
      },
      ap (◌++ (t.text ++ unread c₂)) t.same_size
          ∙ (sym (append_assoc c₁.size t.text (unread c₂))
              ∙ (ap (◌++ unread c₂) (sym (prefix s announced t)) ∙ nothing_lost s announced t)),
      omega (arith, t.reads.processed, s.reads.processed, t.holds.long),
    ),
  )

  pub read_buffered-text :
      {n : ℕ}
      → (s : Sized c c₁ text true) → read_size (4 - c.size_ptr) c ≡ some (true, c₁)
      → ntohl c₁.size ≡ some n
      → (length text + length (unread c) + 2) * 2 + 10 ≤ int_max
      → c.bytes_processed + (length text + length (unread c) + 4) ≤ int_max
      → (c' : Client) × (read_buffered c ≡ some c') × Progress c c' (seen c text ++ unread c)
  unfolding read_buffered
  read_buffered-text {n} s runs announced small counted =
      let (complete, c₂, reads, t) =
        read_text-TextRead (to_read n c₁.msg_ptr) c₁ text s.reads.buffered (rw s.same_msg r.holds)
          (omega (arith, s.shorter)) in
      elim complete
          as (λ b.
            read_text (to_read n c₁.msg_ptr) c₁ ≡ some (b, c₂)
            → TextRead c₁ c₂ text (to_read n c₁.msg_ptr) b
            → (c' : Client) × (read_buffered c ≡ some c')
              × Progress c c' (seen c text ++ unread c)) [
                | false ↦
                    λ reads t. (c₂, rw (runs, announced, reads) refl, text_stopped s announced t)
                | true ↦ λ reads t.
                    let long : length t.text ≤ length text + length (unread c) = omega (
                      arith,
                      ap length t.same,
                      length-append t.text (unread c₂),
                      length-append text (unread c₁),
                      s.shorter,
                    ) in
                    let fits = le→leb (c₂.bytes_processed + (c₂.msg.len + 4)) int_max (
                      omega (
                        arith, counted, long, t.holds.long, t.reads.processed, s.reads.processed,
                      )) in
                    (_, rw (runs, announced, reads) (rw fits refl), text_whole s announced t)
              ]
        reads t
