-- ===== src/Ipc/MqProducer/Printing.antt =====
-- What the receiving thread of ipc/mq_producer.c does with a message.
use linux_tutorial.Prelude.{ℕ, zero, suc, ◌≡◌, refl, true, false, []}
use linux_tutorial.Prelude.Int.{ℤ}
use linux_tutorial.Prog.Logic.{Ensures, Ensures-bind}
use linux_tutorial.Platform.{mq_receive}
use linux_tutorial.Platform.Mailbox.{held_after, printing, received-prints}
use linux_tutorial.Ipc.MqProducer.{receive_loop, receive_thread}

receive_loop-prints :
    (n : ℕ) (mq : ℤ) (msgsize : ℕ) → Ensures printing [] (receive_loop n mq msgsize) (λ _ _. Unit)
unfolding receive_loop
receive_loop-prints zero mq msgsize = tt
receive_loop-prints (suc n) mq msgsize = (
  tt,
  elim [
    | true ↦ λ _. tt
    | false ↦ λ _. (
      refl,
      λ r _.
          Ensures-bind printing (held_after [] (mq_receive mq msgsize) r) _ _ (λ t _. t ≡ []) _
            (received-prints mq msgsize r.size r.bytes)
            λ t _ nothing. rw nothing (receive_loop-prints n mq msgsize),
    )
  ],
)

pub receive_thread-prints :
    (n : ℕ) (mq : ℤ) → Ensures printing [] (receive_thread n mq) (λ _ _. Unit)
unfolding receive_thread
receive_thread-prints n mq = (
  tt,
  λ msgsize _. (
    tt,
    λ _ _. (
      tt,
      λ _ _. (tt, λ _ _. (tt, λ _ _. (tt, λ _ _. (tt, λ _ _. receive_loop-prints n mq msgsize)))),
    ),
  ),
)
