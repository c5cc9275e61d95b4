-- ===== src/Ipc/Delivery.antt =====
-- ipc/mq_producer.c and ipc/mq_consumer.c at once: the sending thread of the producer and the
-- receiving threads of both programs over the queue that they share. A call that waits, as on a full
-- or an empty queue, is one that is answered late.
pub mod Accounting
use linux_tutorial.Prelude.{
  ℕ, ◌+◌, ◌≡◌, refl, sym, ap, ◌∙◌, Bool, true, false, Bool-cases, inl, inr, Option, List, [], ◌∷◌,
  ◌++◌, if◌then◌else◌, arith,
}
use linux_tutorial.Prelude.Int.{ℤ}
use linux_tutorial.Prog.{call}
use linux_tutorial.Prog.Logic.{Ensures, Ensures_mono}
use linux_tutorial.Platform.{
  Call, Reply, Io, Buffer, mq_send, mq_receive, puts_text, is_negative, is_positive,
}
use linux_tutorial.Platform.Resources.Counts.{one_if}
use linux_tutorial.Platform.Mailbox.{cells, held_after, printing}
use linux_tutorial.Ipc.MqProducer
use linux_tutorial.Ipc.MqProducer.{message, send_thread}
use linux_tutorial.Ipc.MqProducer.Messages.{sent}
use linux_tutorial.Ipc.MqProducer.Printing as OwnPrinting
use linux_tutorial.Ipc.MqConsumer
use linux_tutorial.Ipc.MqConsumer.Printing

-- The queue, and what was done: the messages that were put on it, those that were taken off, and the
-- lines that were printed out of a buffer.
pub record Queue : Type 0 where
  pub waiting : List (List ℕ)
  pub sent : List (List ℕ)
  pub taken : List (List ℕ)
  pub lines : List Buffer

-- Where the sending thread is; for the account, the last count that it has used.
pub record Sender : Type 0 where
  pub program : Io (Option (Unit {0}))
  pub count : ℕ

-- Where a receiving thread is; for the account, the message that it has not printed yet.
pub record Receiver : Type 0 where
  pub program : Io (Option (Unit {0}))
  pub held : List (List ℕ)

abbrev rest_of : List (List ℕ) → List (List ℕ)
rest_of [] = []
rest_of (m ∷ ms) = ms

-- A message that is taken is the oldest one. None of the producer's is empty, so the answer to
-- `mq_receive` is positive if one was taken.
abbrev pub Grants : Queue → (c : Call) → Reply c → Type 0
Grants q (mq_receive _ _) r = is_positive r.size ≡ true → q.waiting ≡ r.bytes ∷ rest_of q.waiting
Grants q _ r = Unit

abbrev pub after : Queue → (c : Call) → Reply c → Queue
after q (mq_send _ m) r =
    if is_negative r
    then q
    else record q { waiting = q.waiting ++ (m ∷ []); sent = q.sent ++ (m ∷ []) }
after q (mq_receive _ _) r =
    if is_positive r.size
    then record q { waiting = rest_of q.waiting; taken = q.taken ++ (r.bytes ∷ []) }
    else q
after q (puts_text _ buf) r = record q { lines = q.lines ++ (buf ∷ []) }
after q _ r = q

-- One of the receiving threads makes its next call.
pub data Take : Queue → List Receiver → Queue → List Receiver → Type 0 where
  first :
      (q : Queue) (c : Call) (k : Reply c → Io (Option (Unit {0}))) (held : List (List ℕ))
      (r : Reply c) (ts : List Receiver)
      → Grants q c r
      → Take q
          (record { program = call c k; held = held } ∷ ts)
          (after q c r)
          (record { program = k r; held = held_after held c r } ∷ ts)
  other :
      (t : Receiver) {q q' : Queue} {ts ts' : List Receiver}
      → Take q ts q' ts'
      → Take q (t ∷ ts) q' (t ∷ ts')

-- The sending thread and the receiving ones make their calls in any order.
pub data Reach (q : Queue) (s : Sender) (ts : List Receiver)
    : Queue → Sender → List Receiver → Type 0 where
  here : Reach q s ts q s ts
  send :
      {q' : Queue} {ts' : List Receiver} (c : Call) (k : Reply c → Io (Option (Unit {0})))
      (count : ℕ) (r : Reply c)
      → Grants q' c r
      → Reach q s ts q' (record { program = call c k; count = count }) ts'
      → Reach q s ts (after q' c r) (record { program = k r; count = sent count c r }) ts'
  take :
      {q' q'' : Queue} {s' : Sender} {ts' ts'' : List Receiver}
      → Reach q s ts q' s' ts'
      → Take q' ts' q'' ts''
      → Reach q s ts q'' s' ts''

-- The texts of some of the counts up to the given one, in their order and each once.
pub data Numbered : ℕ → List (List ℕ) → Type 0 where
  nothing_sent : Numbered 0 []
  skipped : {c : ℕ} {ms : List (List ℕ)} → Numbered c ms → Numbered (c + 1) ms
  appended :
      {c : ℕ} {ms : List (List ℕ)} → Numbered c ms → Numbered (c + 1) (ms ++ (message (c + 1) ∷ []))

-- How many pass a test.
abbrev pub times {ℓ} : {A : Type ℓ} → (A → Bool) → List A → ℕ
times test [] = 0
times test (x ∷ xs) = one_if (test x) + times test xs

abbrev pub held_times : (Buffer → Bool) → List Receiver → ℕ
held_times test [] = 0
held_times test (t ∷ ts) = times (λ m. test (cells m)) t.held + held_times test ts
