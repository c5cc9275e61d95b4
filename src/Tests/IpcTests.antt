-- ===== src/Tests/IpcTests.antt =====
-- The programs of ipc/ at concrete inputs.
use linux_tutorial.Prelude.{◌≡◌, ◌≢◌, refl, false, none, some, true, [], ◌∷◌, ◌+◌, arith}
use linux_tutorial.Prelude.Int.{pos}
use linux_tutorial.Prelude.Text.{codes}
use linux_tutorial.Prelude.Decimal.{decimal}
use linux_tutorial.Prog.Logic.{Ensures}
use linux_tutorial.Prog.Both.{both}
use linux_tutorial.Platform.{producer, Session}
use linux_tutorial.Platform.Resources.{fd, mem, holds, resources, stdio}
use linux_tutorial.Platform.Deadline.{hung_up, raised}
use linux_tutorial.Platform.Faults.{no_threads, asked}
use linux_tutorial.Ipc.SockServer
use linux_tutorial.Ipc.SockServer.Serving.{sock_session_total}
use linux_tutorial.Ipc.SockServer.Accepting.{listen_thread-owned}
use linux_tutorial.Ipc.SockServer.Failing.{Unset, start_session-leaks, accept_loop-never_ends}
use linux_tutorial.Ipc.SockClient
use linux_tutorial.Ipc.SockClient.Sending.{numbered, sock_send_loop-numbered}
use linux_tutorial.Ipc.MqProducer.{message}
use linux_tutorial.Ipc.MqConsumer
use linux_tutorial.Ipc.MqConsumer.Receiving.{mailbox, receive_loop-PrintsMessage}
use linux_tutorial.Platform.Threads.{threads_start, nothing_runs, first_starts}
use linux_tutorial.Ipc.Semaphore
use linux_tutorial.Ipc.Semaphore.Joining.{semaphore_main_total, semaphore_main-in_use}
use linux_tutorial.Ipc.Semaphore.Working.{consumer_process_thread-ends}

abbrev session : Session
session = record { addr = 4096; sock = pos 4 }

sock_session_total_example :
    Ensures
      (both (resources false) (hung_up 2))
      (mem 4096 ∷ fd (pos 4) ∷ stdio, 0)
      (SockServer.process_thread 3 session)
      (λ t r. (t.0 ≡ stdio) × (r ≢ none))
sock_session_total_example = sock_session_total false 3 2 session stdio (omega arith)

listen_thread-owned_example :
    Ensures (resources false) stdio (SockServer.listen_thread 3) (λ _ _. Unit)
listen_thread-owned_example = listen_thread-owned 3

start_session-leaks_example :
    Ensures
      (both (resources false) no_threads)
      (fd (pos 4) ∷ stdio, tt)
      (SockServer.start_session (pos 4))
      (λ t _. holds (fd (pos 4)) t.0 ≡ true)
start_session-leaks_example = start_session-leaks 4 stdio

accept_loop-never_ends_example :
    Ensures asked false SockServer.main (λ t _. Unset t)
    × Ensures asked false (SockServer.listen_thread 3) (λ t _. Unset t)
    × Ensures asked false (SockServer.process_thread 3 session) (λ t _. Unset t)
    × Ensures asked false (SockServer.accept_loop 3 (pos 3)) (λ t r. Unset t × (r ≡ none))
accept_loop-never_ends_example = accept_loop-never_ends 3 (pos 3) session

sock_send_loop-numbered_example :
    Ensures (numbered 77) 0 (SockClient.send_loop 3 (pos 3) 77 0) (λ t r. r ≡ none → t ≡ 0 + 3)
sock_send_loop-numbered_example = sock_send_loop-numbered 3 (pos 3) 77 0

message_runs : message 42 ≡ codes "Hello, Receiver; count[42]."
unfolding message decimal
message_runs = refl

receive_loop-PrintsMessage_example :
    Ensures mailbox tt (MqConsumer.receive_loop 3 (pos 3) 8192) (λ _ _. Unit)
receive_loop-PrintsMessage_example = receive_loop-PrintsMessage 3 (pos 3) 8192

semaphore_main_total_example :
    Ensures
      (threads_start 2)
      nothing_runs
      (Semaphore.main 3)
      (λ t r. (t.alive ≡ false) × (t.threads ≡ []) × (r ≢ none))
semaphore_main_total_example = semaphore_main_total 3 2 (omega arith)

semaphore_main-in_use_example :
    Ensures first_starts nothing_runs
      (Semaphore.main 3)
      (λ t r. (t.alive ≡ false) × (t.threads ≡ (producer, 0) ∷ []) × (r ≡ some (pos 0)))
semaphore_main-in_use_example = semaphore_main-in_use 3

consumer_process_thread-ends_example :
    Ensures (raised 2) 0 (Semaphore.consumer_process_thread 3) (λ t r. (t ≡ 3) × (r ≢ none))
consumer_process_thread-ends_example = consumer_process_thread-ends 3 2 (omega arith)
