-- ===== src/Ipc/MqConsumer/Receiving.antt =====
-- What ipc/mq_consumer.c does with the messages of ipc/mq_producer.c, and when it stops.
use linux_tutorial.Prelude.{
  ℕ, zero, suc, ◌+◌, ◌-◌, ◌≤◌, ◌<◌, ◌≡◌, ◌≢◌, refl, true, false, none, some, List, map, arith,
  length, length-append, length-replicate, length-map, replicate, Option, Bool, ◌⊎◌, inl, inr,
}
use linux_tutorial.Prelude.Int.{ℤ}
use linux_tutorial.Prog.Logic.{Monitor, Ensures, Ensures-bind, Ensures-elim}
use linux_tutorial.Platform.{
  Call, Reply, filled, c_string, mq_receive, puts_text, is_zero, is_negative,
}
use linux_tutorial.Platform.Strings.{c_string-filled}
use linux_tutorial.Platform.Deadline.{deadline}
use linux_tutorial.Ipc.MqProducer.{message}
use linux_tutorial.Ipc.MqProducer.Messages.{length-message-lt, message-IsText}
use linux_tutorial.Ipc.MqConsumer.{receive_loop, receive_thread}

length-filled : (n : ℕ) (bytes : List ℕ) → length bytes ≤ n → length (filled n bytes) ≡ n
length-filled n bytes h =
    let cell : ℕ → Option ℕ = some in
    let fresh : Option ℕ = none in
    omega (
      arith,
      length-append (map cell bytes) (replicate (n - length bytes) fresh),
      length-map bytes cell,
      length-replicate (n - length bytes) fresh,
    )

-- The queue is fed by the producer alone: what is received is one of its messages.
abbrev FromProducer : (c : Call) → Reply c → Type 0
FromProducer (mq_receive _ _) r =
    (is_negative r.size ≡ true) ⊎ ((count : ℕ) × (r.bytes ≡ message count))
FromProducer _ _ = Unit

-- A line is printed from the array of 128 chars, not overrun, but with no NUL behind the message.
abbrev PrintsMessage : Call → Type 0
PrintsMessage (puts_text _ buf) = (length buf ≡ 128) × (c_string buf ≡ none)
PrintsMessage _ = Unit

abbrev pub mailbox : Monitor Call Reply
mailbox = record {
  State = Unit {0};
  Allowed = λ _. PrintsMessage;
  Documented = λ _. FromProducer;
  next = λ _ _ _. tt;
}

-- While the queue is fed by the producer alone, no message overruns the array of 128 chars, whatever
-- the queue's message size; but each line printed of one runs on past the message.
pub receive_loop-PrintsMessage :
    (n : ℕ) (mq : ℤ) (msgsize : ℕ) → Ensures mailbox tt (receive_loop n mq msgsize) (λ _ _. Unit)
unfolding receive_loop
receive_loop-PrintsMessage zero mq msgsize = tt
receive_loop-PrintsMessage (suc n) mq msgsize = (
  tt,
  elim [
    | true ↦ λ _. tt
    | false ↦ λ _. (
      tt,
      λ r came.
          Ensures-bind mailbox tt _ _ (λ _ _. Unit) _
            (Ensures-elim mailbox (is_negative r.size) _ _ _ _ (λ _. (tt, λ _ _. tt))
              λ came_well.
                Ensures-elim mailbox (is_zero r.size) _ _ _ _ (λ _. tt)
                  λ _. (printed r.bytes (received came came_well), λ _ _. (tt, λ _ _. tt)))
            λ _ _ _. receive_loop-PrintsMessage n mq msgsize,
    )
  ],
)
  where
    received :
        {b : Bool} {bytes : List ℕ}
        → (b ≡ true) ⊎ ((count : ℕ) × (bytes ≡ message count))
        → b ≡ false
        → (count : ℕ) × (bytes ≡ message count)
    received (inl e) e' = absurd (cc)
    received (inr m) e' = m

    printed :
        (bytes : List ℕ)
        → (count : ℕ) × (bytes ≡ message count)
        → (length (filled 128 bytes) ≡ 128) × (c_string (filled 128 bytes) ≡ none)
    printed bytes (count, e) = rw e (
      length-filled 128 (message count) (omega (arith, length-message-lt count)),
      c_string-filled (message count) 128 (message-IsText count),
    )

receive_loop-ends :
    (n s m : ℕ) (mq : ℤ) (msgsize : ℕ)
    → m < s + n
    → 0 < n
    → Ensures (deadline m) s (receive_loop n mq msgsize) (λ t r. r ≢ none)
unfolding receive_loop
receive_loop-ends zero s m mq msgsize h p = absurd (omega arith)
receive_loop-ends (suc n) s m mq msgsize h p = (
  tt,
  elim [
    | true ↦ λ _ x. cc
    | false ↦ λ late. (
      tt,
      λ r _.
          Ensures-bind (deadline m) (suc s) _ _ (λ t _. t ≡ suc s) _
            (Ensures-elim (deadline m) (is_negative r.size) _ _ _ _ (λ _. (tt, λ _ _. refl))
              λ _.
                Ensures-elim (deadline m) (is_zero r.size) _ _ _ _ (λ _. refl)
                  λ _. (tt, λ _ _. (tt, λ _ _. refl)))
            λ t _ same.
              rw same (receive_loop-ends n (suc s) m mq msgsize (omega arith) (ground arith)),
    )
  ],
)

-- Errors of the queue do not end the thread, and the flag does: if it is read as set at its read
-- number `m` at the latest, `m + 1` rounds are enough.
pub receive_thread-ends :
    (n m : ℕ) (mq : ℤ) → m < n → Ensures (deadline m) 0 (receive_thread n mq) (λ t r. r ≢ none)
unfolding receive_thread
receive_thread-ends n m mq h = (
  tt,
  λ msgsize _. (
    tt,
    λ _ _. (
      tt,
      λ _ _. (
        tt,
        λ _ _. (
          tt,
          λ _ _. (
            tt,
            λ _ _. (tt, λ _ _. receive_loop-ends n 0 m mq msgsize (omega arith) (omega arith)),
          ),
        ),
      ),
    ),
  ),
)
