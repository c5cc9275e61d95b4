-- ===== src/Net/TcpServer.antt =====
-- net/tcp_server.c: an accept loop that starts a thread for each client.
pub mod Serving
pub mod Shutdown
pub mod Signals
pub mod Accepting
pub mod Stopping
pub mod Lasting
pub mod Threads
use linux_tutorial.Prelude.{
  String, ℕ, zero, suc, ◌-◌, ◌≡◌, Bool, true, false, Option, none, some, List, map, ◌++◌, length,
  replicate, if◌then◌else◌,
}
use linux_tutorial.Prelude.Int.{ℤ, pos}
use linux_tutorial.Prog.{ret, ◌>>=◌, ◌>>◌}
use linux_tutorial.Platform.{
  Signal, sig_int, sig_quit, sig_term, sig_abrt, sig_hup, sig_bus, sig_pipe, Disposition, handled,
  ignored, af_inet, Address, inet, Session, Received, error, warn, info, filled, sigaction,
  set_quit, app_quit, socket, bind, listen, accept, recv, close, malloc, access, free,
  pthread_create, sleep_ms, Io, perform, after, log, log_text, is_zero, is_error, minus_one,
  is_positive,
}

abbrev pub buffer_size : ℕ
buffer_size = 1024

abbrev pub server_host : String
server_host = "0.0.0.0"

abbrev pub server_port : ℕ
server_port = 5566

abbrev pub server_addr : Address
server_addr = inet server_host server_port

-- The loop of `session_process_thread`, with its `break`s; `none` when the rounds run out.
unfoldable pub session_loop : ℕ → Session → Io (Option (Unit {0}))
session_loop zero session = ret none
session_loop (suc n) session = do
  quit ← perform app_quit
  elim quit [
    | true ↦ ret (some tt)
    | false ↦ do
      perform (access session.addr)
      r ← perform (recv session.sock buffer_size)
      elim (is_error r.size) [
        | true ↦ do log error "session recv failed with [%d]%s"; ret (some tt)
        | false ↦ elim (is_zero r.size) [
          | true ↦ do log warn "session closed"; ret (some tt)
          | false ↦ do
            log_text info "receive data: %s" (filled buffer_size r.bytes)
            session_loop n session
        ]
      ]
  ]

unfoldable pub session_process_thread : ℕ → Session → Io (Option (Unit {0}))
unfolding session_loop
session_process_thread n session = after (session_loop n session) do
  perform (access session.addr)
  perform (close session.sock)
  perform (free session.addr)
  ret (some tt)

pub handle_signal : Signal → Io (Unit {0})
handle_signal signum = do perform set_quit; log warn "receive signal %d"

unfoldable pub register_signal : Io (Unit {0})
register_signal = do
  perform (sigaction sig_int handled)
  perform (sigaction sig_quit handled)
  perform (sigaction sig_term handled)
  perform (sigaction sig_abrt handled)
  perform (sigaction sig_hup ignored)
  perform (sigaction sig_bus ignored)
  perform (sigaction sig_pipe ignored)
  ret tt

-- The branch where no thread could be started.
pub abandon_session : Session → Io (Unit {0})
abandon_session session = do
  perform (access session.addr)
  perform (close session.sock)
  perform (free session.addr)
  log error "create session process thread failed with [%d]%s"

-- What the accept loop does with a client, from the `malloc` on.
unfoldable pub start_session : ℤ → Io (Unit {0})
unfolding abandon_session
start_session client_fd = do
  log info "client connected from %s:%d"
  addr ← perform (malloc "wdm_session_t")
  perform (access addr)
  let session : Session = record { addr = addr; sock = client_fd }
  created ← perform (pthread_create session)
  elim (is_zero created) [ true ↦ ret tt | false ↦ abandon_session session ]

unfoldable pub accept_loop : ℕ → ℤ → Io (Option (Unit {0}))
unfolding start_session
accept_loop zero server_fd = ret none
accept_loop (suc n) server_fd = do
  quit ← perform app_quit
  elim quit [
    | true ↦ ret (some tt)
    | false ↦ do
      client_fd ← perform (accept server_fd)
      elim (is_positive client_fd) [
        | true ↦ start_session client_fd
        | false ↦ log error "server accept failed with [%d]%s"
      ]
      perform (sleep_ms 30)
      accept_loop n server_fd
  ]

-- `main` from the `bind` on.
unfoldable pub serve : ℕ → ℤ → Io (Option ℤ)
unfolding accept_loop
serve n server_fd = do
  bound ← perform (bind server_fd server_addr)
  elim (is_zero bound) [
    | false ↦ do
      log error "server bind failed with [%d]%s"
      perform (close server_fd)
      ret (some minus_one)
    | true ↦ do
      listening ← perform (listen server_fd 8)
      elim (is_zero listening) [
        | false ↦ do
          log error "server listen failed with [%d]%s"
          perform (close server_fd)
          ret (some minus_one)
        | true ↦ do
          log info "server listen on %s:%d ..."
          after (accept_loop n server_fd) do perform (close server_fd); ret (some (pos 0))
      ]
  ]

unfoldable pub main : ℕ → Io (Option ℤ)
unfolding register_signal serve
main n = do register_signal; server_fd ← perform (socket af_inet); serve n server_fd
