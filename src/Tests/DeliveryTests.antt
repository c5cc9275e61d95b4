-- ===== src/Tests/DeliveryTests.antt =====
-- A run of the message queue: a message is sent, taken off and printed.
use linux_tutorial.Prelude.{◌+◌, ◌≡◌, refl, true, false, Bool, List, [], ◌∷◌, ◌++◌}
use linux_tutorial.Prelude.Int.{pos}
use linux_tutorial.Prelude.Decimal.{decimal}
use linux_tutorial.Platform.{
  Buffer, Received, app_quit, mq_send, mq_getattr, puts, mq_receive, puts_text,
}
use linux_tutorial.Platform.Mailbox.{cells}
use linux_tutorial.Ipc.MqProducer.{message, send_loop, send_thread, receive_loop, receive_thread}
use linux_tutorial.Ipc.Delivery.{
  Queue, Sender, Receiver, first, Reach, here, send, take, Numbered, times, held_times,
}
use linux_tutorial.Ipc.Delivery.Accounting.{empty_queue, sender, receivers, messages-delivered}

abbrev came : Received
came = record { size = pos 27; bytes = message 1 }

abbrev printed_once : Queue
printed_once = record {
  waiting = [];
  sent = message 1 ∷ [];
  taken = message 1 ∷ [];
  lines = cells (message 1) ∷ [];
}

reach_print :
    (s : Sender) × (ts : List Receiver) × Reach empty_queue
      (sender 1 (pos 3))
      (receivers 1 1 (pos 3) (pos 4))
      printed_once
      s
      ts
unfolding send_thread send_loop receive_thread receive_loop message decimal
reach_print = (
  _,
  _,
  take
      (take
        (take
          (take
            (take
              (take
                (take
                  (take
                    (take
                      (take
                        (send (mq_send (pos 3) (message 1)) _ 0 (pos 0) tt
                          (send app_quit _ 0 false tt here))
                        (first _ (mq_getattr (pos 3)) _ _ 8192 _ tt))
                      (first _ (puts "####################\n") _ _ tt _ tt))
                    (first _ (puts "# mq_msgsize: %ld\n") _ _ tt _ tt))
                  (first _ (puts "# mq_maxmsg: %ld\n") _ _ tt _ tt))
                (first _ (puts "# mq_curmsgs: %ld\n") _ _ tt _ tt))
              (first _ (puts "# mq_flags: %ld\n") _ _ tt _ tt))
            (first _ (puts "####################\n") _ _ tt _ tt))
          (first _ app_quit _ _ false _ tt))
        (first _ (mq_receive (pos 3) 8192) _ _ came _ (λ _. refl)))
      (first _ (puts_text "%s" (cells (message 1))) _ _ tt _ tt),
)

abbrev any : Buffer → Bool
any _ = true

messages-delivered_example :
    Numbered reach_print.0.count (message 1 ∷ [])
    × (message 1 ∷ [] ≡ (message 1 ∷ []) ++ [])
    × (times any (cells (message 1) ∷ []) + held_times any reach_print.1
        ≡ times (λ m. any (cells m)) (message 1 ∷ []))
messages-delivered_example = messages-delivered 1 1 1 (pos 3) (pos 4) any reach_print.2
