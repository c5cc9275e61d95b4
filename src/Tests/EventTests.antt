-- ===== src/Tests/EventTests.antt =====
-- The programs of libuv/ and dbus/ at concrete inputs.
use linux_tutorial.Prelude.{◌≡◌, true, false, some, [], arith}
use linux_tutorial.Prelude.Int.{pos}
use linux_tutorial.Prog.Logic.{Ensures}
use linux_tutorial.Libuv.Uv.Stages.{loop, nothing, closing}
use linux_tutorial.Libuv.Uv.Buffers.{buffers}
use linux_tutorial.Libuv.Uv.Storage.{Handle, storage}
use linux_tutorial.Libuv.TcpClient
use linux_tutorial.Libuv.TcpClient.Ending.{uv_client_main_total, uv_client_main-leaks}
use linux_tutorial.Libuv.TcpServer
use linux_tutorial.Libuv.TcpServer.Listening.{on_connection-dangles}
use linux_tutorial.Dbus.Bus.References.{references, nothing as no_references}
use linux_tutorial.Dbus.Bus.Errors.{name_fails, unset}
use linux_tutorial.Dbus.Sender
use linux_tutorial.Dbus.Sender.Sending.{sender_main-holds}
use linux_tutorial.Dbus.Receiver
use linux_tutorial.Dbus.Receiver.Receiving.{receiver_main_total}
use linux_tutorial.Dbus.Receiver.Refusing.{receiver_main-PassedSet, PassedSet}

uv_client_main_total_example :
    Ensures (loop 2) nothing (TcpClient.main 3) (λ t r. (t.stage ≡ closing) × (r ≡ some (pos 0)))
uv_client_main_total_example = uv_client_main_total 3 2 (omega arith)

uv_client_main-leaks_example :
    Ensures buffers (record { wished = 0; live = 0 }) (TcpClient.main 3) (λ t _. t.live ≡ t.wished)
uv_client_main-leaks_example = uv_client_main-leaks 3

abbrev no_client : Handle
no_client = record { reads = false; left_in_use = false }

on_connection-dangles_example :
    Ensures storage no_client (TcpServer.on_connection (pos 0)) (λ t _. t.left_in_use ≡ true)
on_connection-dangles_example = on_connection-dangles no_client

sender_main-holds_example :
    Ensures
      (references 2)
      no_references
      Sender.main
      (λ t _. (t.connections ≡ []) × (t.messages ≡ t.given))
sender_main-holds_example = sender_main-holds 2

receiver_main_total_example :
    Ensures
      (references 2)
      no_references
      (Receiver.main 3)
      (λ t r. (t.connections ≡ []) × (t.messages ≡ t.given) × (r ≡ some (pos 0)))
receiver_main_total_example = receiver_main_total 3 2 (omega arith)

receiver_main-PassedSet_example : Ensures name_fails unset (Receiver.main 3) (λ t _. PassedSet t)
receiver_main-PassedSet_example = receiver_main-PassedSet 3
