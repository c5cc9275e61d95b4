-- ===== src/Tests/StreamTests.antt =====
-- A run of net/tcp_client.c against net/tcp_server.c: of a greeting of 17 bytes the connection takes 10.
use linux_tutorial.Prelude.{◌≡◌, refl, false, some, [], ◌∷◌, ◌++◌, map, arith}
use linux_tutorial.Prelude.Int.{pos}
use linux_tutorial.Prelude.Text.{codes}
use linux_tutorial.Platform.{
  Session, Received, filled, info, app_quit, access, send, recv, printf_text,
}
use linux_tutorial.Net.TcpClient.{greeting, send_loop}
use linux_tutorial.Net.TcpServer.{session_loop, session_process_thread}
use linux_tutorial.Net.Stream.{Stream, Ends, Reach, here, client_calls, session_calls}
use linux_tutorial.Net.Stream.Carrying.{
  Greetings, Shown, silent, connected, session_process_thread-Shown,
}

abbrev session : Session
session = record { addr = 1; sock = pos 4 }

abbrev came : Received
came = record { size = pos 10; bytes = codes "Hello, TCP" }

abbrev cut_short : Stream
cut_short = record {
  waiting = [];
  sent = map some (codes "Hello, TCP");
  received = map some (codes "Hello, TCP");
  lines = filled 1024 (codes "Hello, TCP") ∷ [];
}

reach_line : (ends : Ends) × Reach silent (connected 1 1 (pos 3) session) cut_short ends
unfolding send_loop session_loop session_process_thread
reach_line = (
  _,
  session_calls (printf_text info "receive data: %s" (filled 1024 (codes "Hello, TCP"))) _ tt _ _ tt
      (session_calls (recv (pos 4) 1024) _ came _ _ (omega arith, λ _. (omega arith, refl, refl))
        (session_calls (access 1) _ tt _ _ tt (
          session_calls app_quit _ false _ _ tt (
            client_calls (send (pos 3) (map some greeting)) _ (pos 10) _ _ (omega arith)
              (client_calls app_quit _ false _ _ tt here))))),
)

session_process_thread-Shown_example :
    Greetings cut_short.sent
    × (cut_short.sent ≡ cut_short.received ++ cut_short.waiting)
    × Shown cut_short.lines cut_short.received reach_line.0.held
session_process_thread-Shown_example = session_process_thread-Shown 1 1 (pos 3) session reach_line.1
