-- ===== src/Net/TlsClient.antt =====
-- net/tls_client.c: the client of tcp_client.c over TLS. OpenSSL is the platform's.
pub mod Sending
use linux_tutorial.Prelude.{String, ℕ, zero, suc, Bool, true, false, Option, none, some, List, map}
use linux_tutorial.Prelude.Int.{ℤ, pos}
use linux_tutorial.Prelude.Text.{codes}
use linux_tutorial.Prog.{ret, ◌>>=◌, ◌>>◌}
use linux_tutorial.Platform.{
  Signal, sig_int, sig_quit, sig_term, sig_abrt, sig_hup, sig_bus, sig_pipe, handled, ignored,
  af_inet, Address, inet, error, warn, tls_client, subject, issuer, sigaction, set_quit, app_quit,
  socket, connect, close, free, puts, sleep_ms, ssl_library_init, openssl_add_all_algorithms,
  ssl_load_error_strings, ssl_ctx_new, ssl_ctx_free, ssl_new, ssl_set_fd, ssl_connect, ssl_write,
  ssl_shutdown, ssl_free, ssl_get_peer_certificate, x509_name_oneline, x509_free,
  err_print_errors_fp, Io, perform, after, log, is_zero, is_error, is_null, is_negative, minus_one,
}

abbrev pub server_host : String
server_host = "0.0.0.0"

abbrev pub server_port : ℕ
server_port = 5566

abbrev server_addr : Address
server_addr = inet server_host server_port

-- The bytes of `buffer` that `strlen` counts: those before the NUL.
abbrev pub greeting : List ℕ
greeting = codes "Hello, TCP Server"

pub handle_signal : Signal → Io (Unit {0})
handle_signal signum = do perform set_quit; log warn "receive signal %d"

pub register_signal : Io (Unit {0})
register_signal = do
  perform (sigaction sig_int handled)
  perform (sigaction sig_quit handled)
  perform (sigaction sig_term handled)
  perform (sigaction sig_abrt handled)
  perform (sigaction sig_hup ignored)
  perform (sigaction sig_bus ignored)
  perform (sigaction sig_pipe ignored)
  ret tt

pub show_cert : ℕ → Io (Unit {0})
show_cert ssl = do
  cert ← perform (ssl_get_peer_certificate ssl)
  elim (is_null cert) [
    | true ↦ perform (puts "无证书信息！\n")
    | false ↦ do
      perform (puts "数字证书信息:\n")
      line ← perform (x509_name_oneline cert subject)
      perform (puts "证书: %s\n")
      perform (free line)
      line ← perform (x509_name_oneline cert issuer)
      perform (puts "颁发者: %s\n")
      perform (free line)
      perform (x509_free cert)
  ]

pub send_loop : ℕ → ℕ → Io (Option (Unit {0}))
send_loop zero ssl = ret none
send_loop (suc n) ssl = do
  quit ← perform app_quit
  elim quit [
    | true ↦ ret (some tt)
    | false ↦ do
      wsize ← perform (ssl_write ssl (map some greeting))
      elim (is_negative wsize) [
        | true ↦ do log error "client send failed with [%d]%s"; ret (some tt)
        | false ↦ do perform (sleep_ms 1000); send_loop n ssl
      ]
  ]

-- `main` from the `SSL_new` on. A handshake that failed is reported, and the loop is entered.
pub talk : ℕ → ℕ → ℤ → Io (Option ℤ)
unfolding show_cert send_loop
talk n ctx sock = do
  ssl ← perform (ssl_new ctx)
  perform (ssl_set_fd ssl sock)
  connected ← perform (ssl_connect ssl)
  elim (is_error connected) [
    | true ↦ perform err_print_errors_fp
    | false ↦ do perform (puts "Connected with %s encryption\n"); show_cert ssl
  ]
  after (send_loop n ssl) do
    perform (ssl_shutdown ssl)
    perform (ssl_free ssl)
    perform (close sock)
    perform (ssl_ctx_free ctx)
    ret (some (pos 0))

-- `main` from the `connect` on.
pub start : ℕ → ℕ → ℤ → Io (Option ℤ)
unfolding talk
start n ctx sock = do
  connected ← perform (connect sock server_addr)
  elim (is_zero connected) [
    | false ↦ do log error "connect failed with [%d]%s"; perform (close sock); ret (some minus_one)
    | true ↦ talk n ctx sock
  ]

-- The result is the exit status; `exit(1)` is 1.
pub main : ℕ → Io (Option ℤ)
unfolding register_signal start
main n = do
  register_signal
  perform ssl_library_init
  perform openssl_add_all_algorithms
  perform ssl_load_error_strings
  ctx ← perform (ssl_ctx_new tls_client)
  elim (is_null ctx) [
    | true ↦ do perform err_print_errors_fp; ret (some (pos 1))
    | false ↦ do sock ← perform (socket af_inet); start n ctx sock
  ]
