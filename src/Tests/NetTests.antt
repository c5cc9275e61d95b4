-- ===== src/Tests/NetTests.antt =====
-- The programs of net/ at concrete inputs.
use linux_tutorial.Prelude.{◌≡◌, ◌≢◌, true, false, none, some, ◌∷◌, arith, ℕ, ◌⊎◌}
use linux_tutorial.Prelude.Int.{pos}
use linux_tutorial.Prog.Logic.{Ensures}
use linux_tutorial.Prog.Both.{both}
use linux_tutorial.Platform.{Session, minus_one}
use linux_tutorial.Platform.Resources.{fd, mem, ctx, resources, stdio}
use linux_tutorial.Platform.Deadline.{deadline}
use linux_tutorial.Platform.Overread.{overread}
use linux_tutorial.Net.TcpServer
use linux_tutorial.Net.TcpServer.Serving.{tcp_session_total, tcp_session_loop-ReadsOn}
use linux_tutorial.Net.TcpServer.Shutdown.{tcp_server_main_total}
use linux_tutorial.Net.TcpClient
use linux_tutorial.Net.TcpClient.Sending.{tcp_client_main_total}
use linux_tutorial.Net.TlsServer
use linux_tutorial.Net.TlsServer.Shutdown.{tls_session_total}
use linux_tutorial.Net.TlsServer.Accepting.{tls_server_main-Released}
use linux_tutorial.Net.TlsClient
use linux_tutorial.Net.TlsClient.Sending.{tls_client_main-Released}

abbrev session : Session
session = record { addr = 4096; sock = pos 4 }

tcp_session_total_example :
    Ensures
      (both (resources false) (deadline 2))
      (mem 4096 ∷ fd (pos 4) ∷ stdio, 0)
      (TcpServer.session_process_thread 3 session)
      (λ t r. (t.0 ≡ stdio) × (r ≢ none))
tcp_session_total_example = tcp_session_total false 3 2 session stdio (omega arith)

tcp_session_loop-ReadsOn_example :
    Ensures overread tt (TcpServer.session_loop 3 session) (λ _ _. Unit)
tcp_session_loop-ReadsOn_example = tcp_session_loop-ReadsOn 3 session

tcp_server_main_total_example :
    Ensures
      (both (resources true) (deadline 2))
      (stdio, 0)
      (TcpServer.main 3)
      (λ t r. (t.0 ≡ stdio) × (r ≢ none))
tcp_server_main_total_example = tcp_server_main_total 3 2 (omega arith)

tcp_client_main_total_example :
    Ensures
      (both (resources false) (deadline 2))
      (stdio, 0)
      (TcpClient.main 3)
      (λ t r. (t.0 ≡ stdio) × (r ≢ none))
tcp_client_main_total_example = tcp_client_main_total 3 2 (omega arith)

tls_session_total_example :
    Ensures
      (both (resources true) (deadline 2))
      (mem 4096 ∷ fd (pos 4) ∷ ctx 512 ∷ stdio, 0)
      (TlsServer.session_process_thread 3 (record { base = session; ctx = 512; ssl = 0 }))
      (λ t r. (t.0 ≡ ctx 512 ∷ stdio) × (r ≢ none))
tls_session_total_example = tls_session_total 3 2 512 0 session stdio (omega arith)

tls_server_main-Released_example :
    Ensures
      (resources true)
      stdio
      (TlsServer.main 3)
      (λ t r. r ≢ none → (t ≡ stdio) ⊎ ((c : ℕ) × (t ≡ ctx c ∷ stdio) × (r ≡ some minus_one)))
tls_server_main-Released_example = tls_server_main-Released 3

tls_client_main-Released_example :
    Ensures
      (resources true)
      stdio
      (TlsClient.main 3)
      (λ t r. r ≢ none → (t ≡ stdio) ⊎ ((c : ℕ) × (t ≡ ctx c ∷ stdio) × (r ≡ some minus_one)))
tls_client_main-Released_example = tls_client_main-Released 3
