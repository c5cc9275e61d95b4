-- ===== src/Ipc/Delivery/Accounting.antt =====
-- What becomes of the messages of ipc/mq_producer.c: each is printed once, or waits, or is held.
use linux_tutorial.Prelude.{
  ℕ, ◌+◌, ◌≡◌, refl, sym, ap, ◌∙◌, Bool, Bool-cases, inl, inr, List, [], ◌∷◌, ◌++◌, arith,
}
use mathlib.Core.List.{append_assoc}
use linux_tutorial.Prelude.Int.{ℤ}
use linux_tutorial.Prog.Logic.{Ensures, Ensures_mono}
use linux_tutorial.Platform.{
  Call, Reply, Buffer, mq_send, mq_receive, puts_text, is_negative, is_positive,
}
use linux_tutorial.Platform.Mailbox.{cells, PrintsHeld, held_after, printing}
use linux_tutorial.Ipc.MqProducer
use linux_tutorial.Ipc.MqProducer.{message, send_thread}
use linux_tutorial.Ipc.MqProducer.Messages.{IsNext, sent, numbered, send_thread-numbered}
use linux_tutorial.Ipc.MqProducer.Printing as OwnPrinting
use linux_tutorial.Ipc.MqConsumer
use linux_tutorial.Ipc.MqConsumer.Printing
use linux_tutorial.Ipc.Delivery.{
  Queue, Sender, Receiver, rest_of, Grants, after, Take, first, other, Reach, here, send, take,
  Numbered, nothing_sent, skipped, appended, times, held_times,
}

times-append {ℓ} :
    {A : Type ℓ} (test : A → Bool) (xs ys : List A)
    → times test (xs ++ ys) ≡ times test xs + times test ys
times-append test [] ys = omega arith
times-append test (x ∷ xs) ys = omega (arith, times-append test xs ys)

abbrev AllPrint : List Receiver → Type 0
AllPrint [] = Unit
AllPrint (t ∷ ts) = Ensures printing t.held t.program (λ _ _. Unit) × AllPrint ts

-- What was sent and what was taken off agree with what waits.
abbrev InOrder : Queue → Type 0
InOrder q = q.sent ≡ q.taken ++ q.waiting

Take-AllPrint :
    {q q' : Queue} {ts ts' : List Receiver} → Take q ts q' ts' → AllPrint ts → AllPrint ts'
Take-AllPrint (first q c k held r ts g) (prints, rest) = (prints.1 r tt, rest)
Take-AllPrint (other t step) (prints, rest) = (prints, Take-AllPrint step rest)

-- A receiver leaves what was sent as it is.
after-InOrder :
    (q : Queue) (held : List (List ℕ)) (c : Call) (r : Reply c)
    → PrintsHeld held c
    → Grants q c r
    → InOrder q
    → InOrder (after q c r) × ((after q c r).sent ≡ q.sent)
after-InOrder q held (mq_send f m) r h g o = absurd h
after-InOrder q held (mq_receive f n) r h g o = elim (Bool-cases (is_positive r.size)) [
  | inl y ↦ rw y (
    o
        ∙ ap (λ w. q.taken ++ w) (g y)
        ∙ sym (append_assoc q.taken (r.bytes ∷ []) (rest_of q.waiting)),
    refl,
  )
  | inr n ↦ rw n (o, refl)
]
after-InOrder q held (puts_text f buf) r h g o = (o, refl)
after-InOrder q held _ r h g o = (o, refl)

-- A receiver prints what it has taken.
after-times :
    (test : Buffer → Bool) (q : Queue) (held : List (List ℕ)) (c : Call) (r : Reply c)
    → PrintsHeld held c
    → times test (after q c r).lines
        + times (λ m. test (cells m)) (held_after held c r)
        + times (λ m. test (cells m)) q.taken
      ≡ times test q.lines
        + times (λ m. test (cells m)) held
        + times (λ m. test (cells m)) (after q c r).taken
after-times test q held (mq_send f m) r h = absurd h
after-times test q held (mq_receive f n) r h = elim (Bool-cases (is_positive r.size)) [
  | inl y ↦ rw (y, h) (omega (arith, times-append (λ m. test (cells m)) q.taken (r.bytes ∷ [])))
  | inr n ↦ rw n (omega arith)
]
after-times test q held (puts_text f buf) r (m, e, e') =
    rw (e, e') (omega (arith, times-append test q.lines (cells m ∷ [])))
after-times test q held _ r h = refl

Take-InOrder :
    {q q' : Queue} {ts ts' : List Receiver}
    → Take q ts q' ts'
    → AllPrint ts
    → InOrder q
    → InOrder q' × (q'.sent ≡ q.sent)
Take-InOrder (first q c k held r ts g) (prints, rest) o = after-InOrder q held c r prints.0 g o
Take-InOrder (other t step) (prints, rest) o = Take-InOrder step rest o

Take-times :
    (test : Buffer → Bool) {q q' : Queue} {ts ts' : List Receiver}
    → Take q ts q' ts'
    → AllPrint ts
    → times test q'.lines + held_times test ts' + times (λ m. test (cells m)) q.taken
      ≡ times test q.lines + held_times test ts + times (λ m. test (cells m)) q'.taken
Take-times test (first q c k held r ts g) (prints, rest) =
    omega (arith, after-times test q held c r prints.0)
Take-times test (other t step) (prints, rest) = omega (arith, Take-times test step rest)

-- The sender puts the text of its next count at the end.
after-Numbered :
    (q : Queue) (count : ℕ) (c : Call) (r : Reply c)
    → IsNext count c
    → InOrder q
    → Numbered count q.sent
    → InOrder (after q c r)
      × Numbered (sent count c r) (after q c r).sent
      × ((after q c r).taken ≡ q.taken)
      × ((after q c r).lines ≡ q.lines)
after-Numbered q count (mq_send f m) r h o numbers = elim (Bool-cases (is_negative r)) [
  | inl y ↦ rw y (o, skipped numbers, refl, refl)
  | inr n ↦
      rw (n, h)
        (
          ap (λ w. w ++ (message (count + 1) ∷ [])) o
              ∙ append_assoc q.taken q.waiting (message (count + 1) ∷ []),
          appended numbers,
          refl,
          refl,
        )
]
after-Numbered q count (mq_receive f n) r h o numbers = absurd h
after-Numbered q count (puts_text f buf) r h o numbers = absurd h
after-Numbered q count _ r h o numbers = (o, numbers, refl, refl)

-- The account that every run keeps.
abbrev Account : Queue → Sender → List Receiver → Type 0
Account q s ts =
    Ensures numbered s.count s.program (λ _ _. Unit)
    × AllPrint ts
    × InOrder q
    × Numbered s.count q.sent
    × ((test : Buffer → Bool)
        → times test q.lines + held_times test ts ≡ times (λ m. test (cells m)) q.taken)

Reach-Account :
    {q : Queue} {s : Sender} {ts : List Receiver} {q' : Queue} {s' : Sender} {ts' : List Receiver}
    → Account q s ts
    → Reach q s ts q' s' ts'
    → Account q' s' ts'
Reach-Account h here = h
Reach-Account h (send {q'} {ts'} c k count r g reached) =
    let (sends, prints, o, numbers, balance) = Reach-Account h reached in
    let (o', numbers', taken_same, lines_same) = after-Numbered q' count c r sends.0 o numbers in
    (sends.1 r tt, prints, o', numbers', λ test. rw (taken_same, lines_same) (balance test))
Reach-Account h (take reached step) =
    let (sends, prints, o, numbers, balance) = Reach-Account h reached in
    let (o', sent_same) = Take-InOrder step prints o in
    (
      sends,
      Take-AllPrint step prints,
      o',
      rw sent_same numbers,
      λ test. omega (arith, Take-times test step prints, balance test),
    )

abbrev pub empty_queue : Queue
empty_queue = record { waiting = []; sent = []; taken = []; lines = [] }

-- The threads at their start, with their rounds: the two of the producer and that of the consumer.
abbrev pub sender : ℕ → ℤ → Sender
sender n mq = record { program = send_thread n mq; count = 0 }

abbrev pub receivers : ℕ → ℕ → ℤ → ℤ → List Receiver
receivers m l mq mq' =
    record { program = MqProducer.receive_thread m mq; held = [] }
    ∷ record { program = MqConsumer.receive_thread l mq'; held = [] }
    ∷ []

started-Account :
    (n m l : ℕ) (mq mq' : ℤ) → Account empty_queue (sender n mq) (receivers m l mq mq')
started-Account n m l mq mq' = (
  Ensures_mono numbered 0 (send_thread n mq) _ _ (send_thread-numbered n mq) λ _ _ _. tt,
  (
    MqProducer.Printing.receive_thread-prints m mq,
    (MqConsumer.Printing.receive_thread-prints l mq', tt),
  ),
  refl,
  nothing_sent,
  λ test. refl,
)

-- From an empty queue, however the calls of the three threads follow each other and whichever fail:
-- what was put on the queue are texts of the producer with rising counts, each once; it is taken off
-- in that order, and nothing else is; and for each test on lines, as many of the messages that were
-- taken pass it as of those that were printed and those that a thread still holds, so that none is
-- lost or printed twice.
pub messages-delivered :
    (n m l : ℕ) (mq mq' : ℤ) (test : Buffer → Bool) {q : Queue} {s : Sender} {ts : List Receiver}
    → Reach empty_queue (sender n mq) (receivers m l mq mq') q s ts
    → Numbered s.count q.sent
      × (q.sent ≡ q.taken ++ q.waiting)
      × (times test q.lines + held_times test ts ≡ times (λ m. test (cells m)) q.taken)
messages-delivered n m l mq mq' test reached =
    let (_, _, o, numbers, balance) = Reach-Account (started-Account n m l mq mq') reached in
    (numbers, o, balance test)
