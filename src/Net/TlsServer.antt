-- ===== src/Net/TlsServer.antt =====
-- net/tls_server.c: the server of tcp_server.c over TLS. OpenSSL is the platform's.
pub mod Serving
pub mod Shutdown
pub mod Accepting
pub mod Stopping
pub mod Lasting
pub mod Threads
use linux_tutorial.Prelude.{String, ℕ, zero, suc, Bool, true, false, Option, none, some}
use linux_tutorial.Prelude.Int.{ℤ, pos, negsuc}
use linux_tutorial.Prog.{ret, ◌>>=◌, ◌>>◌}
use linux_tutorial.Platform.{
  Signal, sig_int, sig_quit, sig_term, sig_abrt, sig_hup, sig_bus, sig_pipe, handled, ignored,
  af_inet, Address, inet, Session, Received, error, warn, info, filled, tls_server, sigaction,
  set_quit, app_quit, socket, bind, listen, accept, close, malloc, access, free, pthread_create,
  sleep_ms, ssl_library_init, openssl_add_all_algorithms, ssl_load_error_strings, ssl_ctx_new,
  ssl_ctx_use_certificate_file, ssl_ctx_use_private_key_file, ssl_ctx_check_private_key,
  ssl_ctx_free, ssl_new, ssl_set_fd, ssl_accept, ssl_read, ssl_shutdown, ssl_free,
  err_print_errors_fp, Io, perform, after, log, log_text, is_zero, is_error, is_null, minus_one,
  is_positive,
}

abbrev pub buffer_size : ℕ
buffer_size = 1024

-- PROJECT_SOURCE_ROOT is set by the build and stands for itself.
abbrev pub tls_cert_file : String
tls_cert_file = "PROJECT_SOURCE_ROOT/data/cert.pem"

abbrev pub tls_key_file : String
tls_key_file = "PROJECT_SOURCE_ROOT/data/key.pem"

abbrev pub server_host : String
server_host = "0.0.0.0"

abbrev pub server_port : ℕ
server_port = 5566

abbrev server_addr : Address
server_addr = inet server_host server_port

-- `wdm_session_t`: where it lies, its `sock`, `ctx` and `ssl`; nothing reads `tid`.
pub record TlsSession : Type 0 where
  pub base : Session
  pub ctx : ℕ
  pub ssl : ℕ

-- The rounds of `session_process_thread`; `none` when they run out.
pub session_loop : ℕ → TlsSession → Io (Option (Unit {0}))
session_loop zero session = ret none
session_loop (suc n) session = do
  quit ← perform app_quit
  elim quit [
    | true ↦ ret (some tt)
    | false ↦ do
      perform (access session.base.addr)
      r ← perform (ssl_read session.ssl buffer_size)
      elim (is_error r.size) [
        | true ↦ do log error "session recv failed with [%d]%s"; ret (some tt)
        | false ↦ elim (is_zero r.size) [
          | true ↦ do log warn "session closed"; ret (some tt)
          | false ↦ do
            log_text info "receive data: %s" (filled buffer_size r.bytes)
            session_loop n session
        ]
      ]
  ]

-- From the label QUIT on.
pub quit_session : TlsSession → Io (Option (Unit {0}))
quit_session session = do
  perform (access session.base.addr)
  perform (ssl_free session.ssl)
  perform (close session.base.sock)
  perform (free session.base.addr)
  ret (some tt)

pub session_process_thread : ℕ → TlsSession → Io (Option (Unit {0}))
unfolding session_loop quit_session
session_process_thread n arg = do
  perform (access arg.base.addr)
  ssl ← perform (ssl_new arg.ctx)
  let session : TlsSession = record arg { ssl = ssl }
  perform (access session.base.addr)
  perform (ssl_set_fd session.ssl session.base.sock)
  accepted ← perform (ssl_accept session.ssl)
  elim (is_error accepted) [
    | true ↦ quit_session session
    | false ↦ after (session_loop n session) do
      perform (access session.base.addr)
      perform (ssl_shutdown session.ssl)
      quit_session session
  ]

pub handle_signal : Signal → Io (Unit {0})
handle_signal signum = do perform set_quit; log warn "receive signal %d"

unfoldable pub register_signal : Io (Unit {0})
register_signal = do
  perform (sigaction sig_int handled)
  perform (sigaction sig_quit handled)
  perform (sigaction sig_term handled)
  perform (sigaction sig_abrt handled)
  perform (sigaction sig_hup ignored)
  perform (sigaction sig_bus ignored)
  perform (sigaction sig_pipe ignored)
  ret tt

-- The branch where no thread could be started.
pub abandon_session : Session → Io (Unit {0})
abandon_session session = do
  perform (access session.addr)
  perform (close session.sock)
  perform (free session.addr)
  log error "create session process thread failed with [%d]%s"

-- What the accept loop does with a client, from the `malloc` on. The session borrows `ctx`; its `ssl`
-- is not set yet, for which 0 stands.
pub start_session : ℕ → ℤ → Io (Unit {0})
unfolding abandon_session
start_session ctx client_fd = do
  log info "client connected from %s:%d"
  addr ← perform (malloc "wdm_session_t")
  perform (access addr)
  let session : TlsSession = record {
    base = record { addr = addr; sock = client_fd };
    ctx = ctx;
    ssl = 0;
  }
  created ← perform (pthread_create session.base)
  elim (is_zero created) [ true ↦ ret tt | false ↦ abandon_session session.base ]

pub accept_loop : ℕ → ℕ → ℤ → Io (Option (Unit {0}))
unfolding start_session
accept_loop zero ctx server_fd = ret none
accept_loop (suc n) ctx server_fd = do
  quit ← perform app_quit
  elim quit [
    | true ↦ ret (some tt)
    | false ↦ do
      client_fd ← perform (accept server_fd)
      elim (is_positive client_fd) [
        | true ↦ start_session ctx client_fd
        | false ↦ log error "server accept failed with [%d]%s"
      ]
      perform (sleep_ms 30)
      accept_loop n ctx server_fd
  ]

-- `main` from the `bind` on.
pub serve : ℕ → ℕ → ℤ → Io (Option ℤ)
unfolding accept_loop
serve n ctx server_fd = do
  bound ← perform (bind server_fd server_addr)
  elim (is_zero bound) [
    | false ↦ do
      log error "server bind failed with [%d]%s"
      perform (close server_fd)
      ret (some minus_one)
    | true ↦ do
      listening ← perform (listen server_fd 8)
      elim (is_zero listening) [
        | false ↦ do
          log error "server listen failed with [%d]%s"
          perform (close server_fd)
          ret (some minus_one)
        | true ↦ do
          log info "server listen on %s:%d ..."
          after (accept_loop n ctx server_fd)
              do perform (close server_fd); perform (ssl_ctx_free ctx); ret (some (pos 0))
      ]
  ]

-- A step of the setup that failed ends `main`.
abbrev pub give_up : Io (Option ℤ)
give_up = do perform err_print_errors_fp; ret (some minus_one)

-- The setup of the context, with its checks in order.
pub load_certificate : ℕ → Io (Option ℤ) → Io (Option ℤ)
load_certificate ctx rest = do
  cert ← perform (ssl_ctx_use_certificate_file ctx tls_cert_file)
  elim (is_positive cert) [
    | false ↦ give_up
    | true ↦ do
      key ← perform (ssl_ctx_use_private_key_file ctx tls_key_file)
      elim (is_positive key) [
        | false ↦ give_up
        | true ↦ do
          checked ← perform (ssl_ctx_check_private_key ctx)
          elim (is_zero checked) [ true ↦ give_up | false ↦ rest ]
      ]
  ]

unfoldable pub main : ℕ → Io (Option ℤ)
unfolding register_signal load_certificate serve
main n = do
  register_signal
  perform ssl_library_init
  perform openssl_add_all_algorithms
  perform ssl_load_error_strings
  ctx ← perform (ssl_ctx_new tls_server)
  elim (is_null ctx) [
    | true ↦ give_up
    | false ↦ load_certificate ctx do server_fd ← perform (socket af_inet); serve n ctx server_fd
  ]
