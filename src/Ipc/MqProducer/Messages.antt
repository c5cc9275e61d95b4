-- ===== src/Ipc/MqProducer/Messages.antt =====
-- What ipc/mq_producer.c puts on the queue, and what it makes of what it takes off.
use linux_tutorial.Prelude.{
  ℕ, zero, suc, ◌+◌, ◌<◌, ◌≡◌, refl, ap, true, false, none, List, [], ◌∷◌, ◌++◌, arith, length,
  length-append, drop, leb, ◌&&◌, ◌^◌, ◌∙◌, if◌then◌else◌,
}
use linux_tutorial.Prelude.Int.{ℤ}
use linux_tutorial.Prelude.Text.{codes}
use linux_tutorial.Prelude.Decimal.{
  All, All-append, IsDigit, decimal, decimal-IsDigit, decimal-IsText, length-decimal-le, number,
  number-decimal,
}
use linux_tutorial.Prog.Logic.{Monitor, Ensures, Ensures-bind, Ensures_mono, Ensures-elim}
use linux_tutorial.Platform.{Call, Reply, mq_send, mq_receive, puts_text, is_zero, is_negative}
use linux_tutorial.Platform.Strings.{IsText, c_string-filled, c_string-sprintf}
use linux_tutorial.Platform.Overread.{overread}
use linux_tutorial.Ipc.MqProducer.{message, or_empty, send_loop, send_thread, receive_loop}

pub message-IsText : (count : ℕ) → IsText (message count)
unfolding message
message-IsText count =
    All-append _ (codes "Hello, Receiver; count[") _ (omega arith)
      (All-append _ (decimal count) _ (decimal-IsText count) (omega arith))

-- Every message fits the array of 128 chars, whatever the count.
pub length-message-lt : (count : ℕ) → length (message count) < 127
unfolding message
length-message-lt count = omega (
  arith,
  length-append (codes "Hello, Receiver; count[") (decimal count ++ codes "]."),
  length-append (decimal count) (codes "]."),
  length-decimal-le count,
)

-- An `mq_send` carries the text of the next count; the state is the last count sent. Nothing is
-- received, and no buffer is printed.
abbrev pub IsNext : ℕ → Call → Type 0
IsNext s (mq_send _ text) = text ≡ message (s + 1)
IsNext s (mq_receive _ _) = ⊥
IsNext s (puts_text _ _) = ⊥
IsNext s _ = Unit

abbrev pub sent : ℕ → (c : Call) → Reply c → ℕ
sent s (mq_send _ _) r = s + 1
sent s _ _ = s

abbrev pub numbered : Monitor Call Reply
numbered = record { State = ℕ; Allowed = IsNext; Documented = λ _ _ _. Unit; next = sent }

-- The messages are numbered: each `mq_send` carries the text of the next count, whether or not the
-- one before it succeeded. A loop whose `n` rounds are used up has sent `n` messages.
mq_send_loop-numbered :
    (n : ℕ) (mq : ℤ) (count : ℕ)
    → Ensures numbered count (send_loop n mq count) (λ t r. r ≡ none → t ≡ count + n)
unfolding send_loop
mq_send_loop-numbered zero mq count = λ _. omega arith
mq_send_loop-numbered (suc n) mq count =
    let (buf, fits, reads, _) =
      c_string-sprintf 128 (message (count + 1)) (omega (arith, length-message-lt (count + 1)))
        (message-IsText (count + 1)) in
    (
      tt,
      elim [
        | true ↦ λ _ used_up. cc
        | false ↦ λ _. rw fits (
          ap or_empty reads,
          λ w _.
              Ensures-bind numbered (count + 1) _ _ (λ t _. t ≡ count + 1) _
                (Ensures-elim numbered (is_negative w) _ _ _ _ (λ _. (tt, λ _ _. refl))
                  (λ _. (tt, λ _ _. refl)))
                λ t _ same. rw same (
                  tt,
                  λ _ _.
                      Ensures_mono numbered (count + 1) (send_loop n mq (count + 1)) _ _
                        (mq_send_loop-numbered n mq (count + 1))
                        λ t r sent_all used_up. omega (arith, sent_all used_up),
                ),
        )
      ],
    )

pub send_thread-numbered :
    (n : ℕ) (mq : ℤ) → Ensures numbered 0 (send_thread n mq) (λ t r. r ≡ none → t ≡ 0 + n)
unfolding send_thread
send_thread-numbered n mq = mq_send_loop-numbered n mq 0

-- The digits that a text begins with.
leading : List ℕ → List ℕ
leading [] = []
leading (c ∷ cs) = if leb b'0' c && leb c b'9' then c ∷ leading cs else []

-- The count that a message shows after its first 23 characters.
pub count_of : List ℕ → ℕ
unfolding leading
count_of text = number 0 (leading (drop 23 text))

leading-append : (ds rest : List ℕ) → All IsDigit ds → leading rest ≡ [] → leading (ds ++ rest) ≡ ds
unfolding leading
leading-append [] rest h e = e
leading-append (d ∷ ds) rest h e = ground (arith, leading-append ds rest h.1 e)

-- The count can be read back off a message, for every positive value of an int.
count_of-message : (count : ℕ) → count < 2 ^ 31 → count_of (message count) ≡ count
unfolding count_of message
count_of-message count h =
    ap (number 0) (leading-append (decimal count) (codes "].") (decimal-IsDigit count) refl)
    ∙ number-decimal count h

-- A message comes with no NUL, and `receive_thread` prints it out of an array that it has not
-- cleared: each line that it prints of a message runs on past the bytes that were received.
pub mq_receive_loop-ReadsOn :
    (n : ℕ) (mq : ℤ) (msgsize : ℕ) → Ensures overread tt (receive_loop n mq msgsize) (λ _ _. Unit)
unfolding receive_loop
mq_receive_loop-ReadsOn zero mq msgsize = tt
mq_receive_loop-ReadsOn (suc n) mq msgsize = (
  tt,
  elim [
    | true ↦ λ _. tt
    | false ↦ λ _. (
      tt,
      λ r text.
          Ensures-bind overread tt _ _ (λ _ _. Unit) _
            (Ensures-elim overread (is_negative r.size) _ _ _ _ (λ _. (tt, λ _ _. tt))
              λ _.
                Ensures-elim overread (is_zero r.size) _ _ _ _ (λ _. tt)
                  λ _. (c_string-filled r.bytes 128 text, λ _ _. (tt, λ _ _. tt)))
            λ _ _ _. mq_receive_loop-ReadsOn n mq msgsize,
    )
  ],
)
