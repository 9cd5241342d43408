-- ===== src/Epoll/Sending.antt =====
-- A client that is written to gets its message back, size first, in as many updates as it takes.
use c_async_await.Base.{
  ℕ, ◌+◌, ◌-◌, ◌≤◌, ◌<◌, ◌≡◌, ◌⊎◌, inl, inr, refl, ◌∙◌, sym, ap, Bool, true, false, some, List, [],
  ◌++◌, ltb, ◌>>=◌, length, take, drop, arith, Bool-cases, length-append, length-drop, drop-drop,
  drop-length, take-length, take-append-drop, get_elem?-drop,
}
use mathlib.Core.List.{append_assoc, append-nil}
use c_async_await.Echo.{Received, Sent, room, text_of}
use c_async_await.Echo.Message.{text_of-IsString}
use c_async_await.Epoll.{
  reading, writing, Client, keep, taken, update_writing, when_reading, when_writing, then_writing,
  client_on_update,
}
use c_async_await.Epoll.Bytes.{IsBuffered}
use c_async_await.Epoll.State.{IsReading}
use c_async_await.Str.Text.{IsString, string_clear-IsString}

pub record IsWriting (c : Client) (text : List ℕ) : Type 0 where
  pub buffered : IsBuffered c
  pub holds : IsString c.msg text
  pub few : c.size_ptr ≤ 4
  pub inside : c.msg_ptr ≤ length text
  pub first : c.size_ptr < 4 → c.msg_ptr ≡ 0

-- What is left to send.
abbrev pub to_send : Client → List ℕ → List ℕ
to_send c text = drop c.size_ptr c.size ++ drop c.msg_ptr text

-- An update sends the next bytes, or there are none and the client waits for the next message.
abbrev pub Sends : Client → Client → List ℕ → Type 0
Sends c c' text =
    ((c'.mode ≡ c.mode)
      × IsWriting c' text
      × (c'.wire ++ to_send c' text ≡ c.wire ++ to_send c text)
      × (length (to_send c' text) < length (to_send c text)))
    ⊎ ((c'.mode ≡ reading) × IsReading c' [] × (to_send c text ≡ []) × (c'.wire ≡ c.wire))

split_sent :
    (wire before after : List ℕ) (w : ℕ)
    → (wire ++ take w before) ++ (drop w before ++ after) ≡ wire ++ (before ++ after)
split_sent wire before after w =
    append_assoc wire (take w before) (drop w before ++ after)
    ∙ ap (wire ++◌) (
        sym (append_assoc (take w before) (drop w before) after)
        ∙ ap (◌++ after) (take-append-drop w before))

taken_le : (r : ℕ) (text : List ℕ) → taken r text ≤ length text
taken_le r text = ground arith

taken_pos : (r : ℕ) (text : List ℕ) → 0 < r → 0 < length text → 0 < taken r text
taken_pos r text p q = ground arith

take-drop : (n p : ℕ) (xs : List ℕ) → p + n ≡ length xs → take n (drop p xs) ≡ drop p xs
take-drop n p xs e =
    let long : n ≡ length (drop p xs) = omega (arith, length-drop p xs) in
    ap (λ k. take k (drop p xs)) long ∙ take-length (drop p xs)

drop-all : (n : ℕ) (xs : List ℕ) → n ≡ length xs → drop n xs ≡ []
drop-all n xs e = ap (λ k. drop k xs) e ∙ drop-length xs

when_writing_out :
    (c : Client) (in_event : Bool) (received : Received) (sent : Sent)
    → c.mode ≡ writing
    → client_on_update c (in_event, true) received sent ≡ update_writing c sent
unfolding client_on_update
when_writing_out c in_event received sent mode =
    ap (λ m. when_reading m c in_event received >>= λ u. then_writing u true sent) mode
    ∙ ap (λ m. when_writing m c true sent) mode

module _ (c : Client) (text : List ℕ) (s : IsWriting c text) (r : ℕ) (p : 0 < r) where
  size_sent :
      c.size_ptr < 4
      → (c' : Client) × (update_writing c (room r) ≡ some (keep c')) × Sends c c' text
  unfolding update_writing
  size_sent lt =
      let rest = take (4 - c.size_ptr) (drop c.size_ptr c.size) in
      let whole : rest ≡ drop c.size_ptr c.size =
        take-drop (4 - c.size_ptr) c.size_ptr c.size (omega (arith, s.buffered.four)) in
      let long = length-drop c.size_ptr c.size in
      let w = taken r rest in
      let more : ltb c.size_ptr 4 ≡ true = ground arith in
      let le = taken_le r rest in
      let pos = taken_pos r rest p (omega (arith, ap length whole, long, s.buffered.four)) in
      let c' : Client = record c { size_ptr = c.size_ptr + w; wire = c.wire ++ take w rest } in
      (
        c',
        rw (update_writing, more) refl,
        inl (
          refl,
          record {
            buffered = record {
              ordered = s.buffered.ordered;
              inside = s.buffered.inside;
              four = s.buffered.four;
            };
            holds = s.holds;
            few = omega (arith, le, ap length whole, long, s.buffered.four);
            inside = s.inside;
            first = λ l. s.first lt;
          },
          ap (λ ys. (c.wire ++ take w rest) ++ (ys ++ drop c.msg_ptr text))
                (sym (drop-drop c.size_ptr w c.size) ∙ ap (drop w) (sym whole))
              ∙ (split_sent c.wire rest (drop c.msg_ptr text) w
                  ∙ ap (λ ys. c.wire ++ (ys ++ drop c.msg_ptr text)) whole),
          omega (
            arith,
            pos,
            length-append (drop c.size_ptr c.size) (drop c.msg_ptr text),
            length-append (drop (c.size_ptr + w) c.size) (drop c.msg_ptr text),
            long,
            length-drop (c.size_ptr + w) c.size,
            s.buffered.four,
          ),
        ),
      )

  text_sent :
      c.size_ptr ≡ 4
      → c.msg_ptr < length text
      → (c' : Client) × (update_writing c (room r) ≡ some (keep c')) × Sends c c' text
  unfolding update_writing
  text_sent four lt =
      let rest = drop c.msg_ptr text in
      let long = length-drop c.msg_ptr text in
      let reads : text_of c.msg.cells c.msg_ptr (length rest) ≡ some rest =
        text_of-IsString rest c.msg.cells c.msg_ptr (λ k l.
          s.holds.reads (c.msg_ptr + k) (omega (arith, long))
          ∙ sym (get_elem?-drop c.msg_ptr text k)) in
      let count : c.msg.len - c.msg_ptr ≡ length rest = omega (arith, long, s.holds.long) in
      let w = taken r rest in
      let done : ltb c.size_ptr 4 ≡ false = ground (arith, four) in
      let more : ltb c.msg_ptr c.msg.len ≡ true = ground (arith, s.holds.long) in
      let le = taken_le r rest in
      let pos = taken_pos r rest p (omega (arith, long)) in
      let c' : Client = record c { msg_ptr = c.msg_ptr + w; wire = c.wire ++ take w rest } in
      let none_left : drop c.size_ptr c.size ≡ [] =
        drop-all c.size_ptr c.size (omega (arith, four, s.buffered.four)) in
      (
        c',
        rw (update_writing, done, more, count, reads) refl,
        inl (
          refl,
          record {
            buffered = record {
              ordered = s.buffered.ordered;
              inside = s.buffered.inside;
              four = s.buffered.four;
            };
            holds = s.holds;
            few = s.few;
            inside = omega (arith, le, long);
            first = λ l. absurd (omega (arith, four));
          },
          ap (λ ys. (c.wire ++ take w rest) ++ (ys ++ drop (c.msg_ptr + w) text)) none_left
              ∙ (ap ((c.wire ++ take w rest) ++◌)
                    (sym (drop-drop c.msg_ptr w text) ∙ sym (append-nil (drop w rest)))
                  ∙ (split_sent c.wire rest [] w
                      ∙ ap (λ ys. c.wire ++ ys) (append-nil rest ∙ ap (◌++ rest) (sym none_left)))),
          omega (
            arith,
            pos,
            length-append (drop c.size_ptr c.size) rest,
            length-append (drop c.size_ptr c.size) (drop (c.msg_ptr + w) text),
            long,
            length-drop (c.msg_ptr + w) text,
          ),
        ),
      )

  all_sent :
      c.size_ptr ≡ 4
      → c.msg_ptr ≡ length text
      → (c' : Client) × (update_writing c (room r) ≡ some (keep c')) × Sends c c' text
  unfolding update_writing
  all_sent four all =
      let (msg, cleared, h, _, _) = string_clear-IsString s.holds in
      let done : ltb c.size_ptr 4 ≡ false = ground (arith, four) in
      let no_more : ltb c.msg_ptr c.msg.len ≡ false = ground (arith, s.holds.long) in
      let none_left : drop c.size_ptr c.size ≡ [] =
        drop-all c.size_ptr c.size (omega (arith, four, s.buffered.four)) in
      (
        record c { msg = msg; msg_ptr = 0; size_ptr = 0; mode = reading },
        rw (update_writing, done, no_more, cleared) refl,
        inr (
          refl,
          record {
            buffered = record {
              ordered = s.buffered.ordered;
              inside = s.buffered.inside;
              four = s.buffered.four;
            };
            few = omega arith;
            holds = h;
            counted = refl;
            begins = λ l. refl;
            within = λ n e e' small. omega arith;
          },
          ap (◌++ drop c.msg_ptr text) none_left ∙ drop-all c.msg_ptr text all,
          refl,
        ),
      )

  update_writing-Sends :
      (c' : Client) × (update_writing c (room r) ≡ some (keep c')) × Sends c c' text
  update_writing-Sends = elim (Bool-cases (ltb c.size_ptr 4)) [
    | inl more ↦ size_sent (ground arith)
    | inr done ↦ elim (Bool-cases (ltb c.msg_ptr (length text))) [
      | inl more ↦ text_sent (ground (arith, s.few)) (ground arith)
      | inr no_more ↦ all_sent (ground (arith, s.few)) (ground (arith, s.inside))
    ]
  ]

  -- When a client that is written to is updated with EPOLLOUT set and the socket takes a byte at
  -- least, what was sent and what is left to send of the size and the text stay together the same
  -- and less is left, or nothing was left and the client waits for its next message, with an empty
  -- text.
  pub client_on_update-Sends :
      (in_event : Bool) (received : Received)
      → c.mode ≡ writing
      → (c' : Client) × (client_on_update c (in_event, true) received (room r) ≡ some (keep c'))
        × Sends c c' text
  client_on_update-Sends in_event received mode =
      let (c', runs, sends) = update_writing-Sends in
      (c', when_writing_out c in_event received (room r) mode ∙ runs, sends)
