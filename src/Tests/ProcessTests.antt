-- ===== src/Tests/ProcessTests.antt =====
-- A run of net/tcp_server.c up to a client's session, and on after a signal.
use linux_tutorial.Prelude.{◌*◌, ◌≤◌, ◌≡◌, refl, Option, some, true, false, [], ◌∷◌, arith}
use linux_tutorial.Prelude.Int.{ℤ, pos}
use linux_tutorial.Prog.{ret, ◌>>◌}
use linux_tutorial.Platform.{
  ssl_library_init, openssl_add_all_algorithms, ssl_load_error_strings, ssl_ctx_new, tls_server,
  err_print_errors_fp, Session, sig_int, sig_quit, sig_term, sig_abrt, sig_hup, sig_bus, sig_pipe,
  handled, ignored, af_inet, info, sigaction, socket, bind, listen, accept, printf, app_quit,
  malloc, access, pthread_create, Io, error, minus_one, perform, after, sleep_ms, close,
}
use linux_tutorial.Platform.Resources.{fd, mem, stdio}
use linux_tutorial.Platform.Resources.Counts.{count, SameHandles}
use linux_tutorial.Platform.Process.{Thread, Shared, first, other, Reach, here, move, signal}
use linux_tutorial.Platform.Process.Apart.{about_to, users}
use linux_tutorial.Platform.Process.Ending.{any_ran_out}
use linux_tutorial.Net.TcpServer.{
  main, register_signal, serve, accept_loop, start_session, server_addr, session_process_thread,
  session_loop,
}
use linux_tutorial.Net.TlsServer
use linux_tutorial.Net.TlsServer.Stopping as TlsStopping
use linux_tutorial.Net.TlsServer.Threads as TlsThreads
use linux_tutorial.Net.TlsServer.Threads.{tls_server_threads-stop}
use linux_tutorial.Net.TcpServer.Stopping.{thread_budget}
use linux_tutorial.Platform.Process.Server.{main_thread, started}
use linux_tutorial.Net.TcpServer.Threads.{
  session_thread, tcp_server_threads-apart, tcp_server_threads-stop, tcp_server_threads-drained,
}

abbrev client : Session
client = record { addr = 1; sock = pos 4 }

-- The thread of the client is at its start, and the main thread is about to sleep.
abbrev with_client : Shared
with_client = record { quit = false; table = mem 1 ∷ fd (pos 4) ∷ fd (pos 3) ∷ stdio }

-- The main thread sleeps before it accepts again, and the client's is at a point of its program.
abbrev main_sleeps : Thread
main_sleeps = record {
  program =
      after (do perform (sleep_ms 30); accept_loop 99 (pos 3))
        do
          perform (close (pos 3))
          ret (some (pos 0));
  owns = fd (pos 3) ∷ stdio;
  keeps = stdio;
}

abbrev clients_thread : Io (Option ℤ) → Thread
clients_thread p = record { program = p; owns = mem 1 ∷ fd (pos 4) ∷ []; keeps = [] }

reach_client :
    Reach
      (session_thread 100)
      started
      (main_thread (main 100) ∷ [])
      17
      with_client
      (main_sleeps ∷ clients_thread (session_thread 100 client) ∷ [])
unfolding main register_signal serve accept_loop start_session
reach_client =
    move
      (move
        (move
          (move
            (move
              (move
                (move
                  (move
                    (move
                      (move
                        (move
                          (move
                            (move
                              (move
                                (move
                                  (move
                                    (move here refl
                                      (first _ (sigaction sig_int handled) _ _ _ (pos 0) _ tt tt))
                                    refl
                                    (first _ (sigaction sig_quit handled) _ _ _ (pos 0) _ tt tt))
                                  refl (first _ (sigaction sig_term handled) _ _ _ (pos 0) _ tt tt))
                                refl (first _ (sigaction sig_abrt handled) _ _ _ (pos 0) _ tt tt))
                              refl (first _ (sigaction sig_hup ignored) _ _ _ (pos 0) _ tt tt))
                            refl (first _ (sigaction sig_bus ignored) _ _ _ (pos 0) _ tt tt))
                          refl (first _ (sigaction sig_pipe ignored) _ _ _ (pos 0) _ tt tt))
                        refl (first _ (socket af_inet) _ _ _ (pos 3) _ refl tt))
                      refl (first _ (bind (pos 3) server_addr) _ _ _ (pos 0) _ (λ e. cc) tt))
                    refl (first _ (listen (pos 3) 8) _ _ _ (pos 0) _ (λ e. cc) tt))
                  refl (first _ (printf info "server listen on %s:%d ...") _ _ _ tt _ tt tt))
                refl (first _ app_quit _ _ _ false _ tt refl))
              refl (first _ (accept (pos 3)) _ _ _ (pos 4) _ (refl, λ e. cc) tt))
            refl (first _ (printf info "client connected from %s:%d") _ _ _ tt _ tt tt))
          refl (first _ (malloc "wdm_session_t") _ _ _ 1 _ (refl, λ e. absurd (omega arith)) tt))
        refl (first _ (access 1) _ _ _ tt _ tt tt))
      refl (first _ (pthread_create client) _ _ _ (pos 0) _ tt tt)

-- The client's thread has read the flag and its session, and is about to receive.
reach_recv :
    (p : Io (Option ℤ)) × Reach
      (session_thread 100)
      started
      (main_thread (main 100) ∷ [])
      19
      with_client
      (main_sleeps ∷ clients_thread p ∷ [])
    × (about_to p ≡ fd (pos 4) ∷ [])
unfolding session_process_thread session_loop
reach_recv = (
  _,
  move (move reach_client refl (other main_sleeps (first _ app_quit _ _ _ false _ tt refl))) refl
      (other main_sleeps (first _ (access 1) _ _ _ tt _ tt tt)),
  refl,
)

-- Once the signal has come the client's thread reads the flag as set.
reach_stop :
    (p : Io (Option ℤ)) × Reach
      (session_thread 100)
      (record with_client { quit = true })
      (main_sleeps ∷ clients_thread (session_thread 100 client) ∷ [])
      1
      (record with_client { quit = true })
      (main_sleeps ∷ clients_thread p ∷ [])
unfolding session_process_thread session_loop
reach_stop = (_, move here refl (other main_sleeps (first _ app_quit _ _ _ true _ tt refl)))

tcp_server_threads-apart_example :
    (users (fd (pos 4)) (main_sleeps ∷ clients_thread reach_recv.0 ∷ [])
      ≤ count (fd (pos 4)) with_client.table)
    × (count (fd (pos 4)) with_client.table ≤ 1)
tcp_server_threads-apart_example = tcp_server_threads-apart 100 100 (fd (pos 4)) reach_recv.1 refl

tcp_server_threads-stop_example :
    (1 ≤ thread_budget * 2) × (any_ran_out (main_sleeps ∷ clients_thread reach_stop.0 ∷ []) ≡ false)
tcp_server_threads-stop_example =
    tcp_server_threads-stop 100 100 (signal reach_client) refl reach_stop.1 (omega arith)
      (omega arith)

-- The program where no socket can be made.
reach_failure :
    Reach
      (session_thread 1)
      started
      (main_thread (main 1) ∷ [])
      11
      started
      (record { program = ret (some minus_one); owns = stdio; keeps = stdio } ∷ [])
unfolding main register_signal serve
reach_failure =
    move
      (move
        (move
          (move
            (move
              (move
                (move
                  (move
                    (move
                      (move
                        (move here refl (first _ (sigaction sig_int handled) _ _ _ (pos 0) _ tt tt))
                        refl (first _ (sigaction sig_quit handled) _ _ _ (pos 0) _ tt tt))
                      refl (first _ (sigaction sig_term handled) _ _ _ (pos 0) _ tt tt))
                    refl (first _ (sigaction sig_abrt handled) _ _ _ (pos 0) _ tt tt))
                  refl (first _ (sigaction sig_hup ignored) _ _ _ (pos 0) _ tt tt))
                refl (first _ (sigaction sig_bus ignored) _ _ _ (pos 0) _ tt tt))
              refl (first _ (sigaction sig_pipe ignored) _ _ _ (pos 0) _ tt tt))
            refl (first _ (socket af_inet) _ _ _ minus_one _ refl tt))
          refl (first _ (bind minus_one server_addr) _ _ _ minus_one _ (λ _. refl) tt))
        refl (first _ (printf error "server bind failed with [%d]%s") _ _ _ tt _ tt tt))
      refl (first _ (close minus_one) _ _ _ minus_one _ tt tt)

tcp_server_threads-drained_example : SameHandles stdio stdio
tcp_server_threads-drained_example = tcp_server_threads-drained 1 1 reach_failure refl

-- The TLS server where OpenSSL makes no context and the signal came first.
reach_tls_failure :
    Reach
      (TlsThreads.session_thread 0 26)
      (record started { quit = true })
      (main_thread (TlsServer.main 26) ∷ [])
      12
      (record started { quit = true })
      (record { program = ret (some minus_one); owns = stdio; keeps = stdio } ∷ [])
unfolding TlsServer.main TlsServer.register_signal
reach_tls_failure =
    move
      (move
        (move
          (move
            (move
              (move
                (move
                  (move
                    (move
                      (move
                        (move
                          (move here refl
                            (first _ (sigaction sig_int handled) _ _ _ (pos 0) _ tt tt))
                          refl (first _ (sigaction sig_quit handled) _ _ _ (pos 0) _ tt tt))
                        refl (first _ (sigaction sig_term handled) _ _ _ (pos 0) _ tt tt))
                      refl (first _ (sigaction sig_abrt handled) _ _ _ (pos 0) _ tt tt))
                    refl (first _ (sigaction sig_hup ignored) _ _ _ (pos 0) _ tt tt))
                  refl (first _ (sigaction sig_bus ignored) _ _ _ (pos 0) _ tt tt))
                refl (first _ (sigaction sig_pipe ignored) _ _ _ (pos 0) _ tt tt))
              refl (first _ ssl_library_init _ _ _ tt _ tt tt))
            refl (first _ openssl_add_all_algorithms _ _ _ tt _ tt tt))
          refl (first _ ssl_load_error_strings _ _ _ tt _ tt tt))
        refl (first _ (ssl_ctx_new tls_server) _ _ _ 0 _ refl tt))
      refl (first _ err_print_errors_fp _ _ _ tt _ tt tt)

tls_server_threads-stop_example :
    (12 ≤ TlsStopping.thread_budget * 1)
    × (any_ran_out (record { program = ret (some minus_one); owns = stdio; keeps = stdio } ∷ [])
        ≡ false)
tls_server_threads-stop_example =
    tls_server_threads-stop 0 26 26 (signal here) refl reach_tls_failure (omega arith) (omega arith)
