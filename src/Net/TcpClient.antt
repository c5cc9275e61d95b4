-- ===== src/Net/TcpClient.antt =====
-- net/tcp_client.c: connects and sends one greeting a second until it is asked to stop.
pub mod Sending
use linux_tutorial.Prelude.{ℕ, zero, suc, Bool, true, false, Option, none, some, List, map, String}
use linux_tutorial.Prelude.Int.{ℤ, pos}
use linux_tutorial.Prelude.Text.{codes}
use linux_tutorial.Prog.{ret, ◌>>=◌, ◌>>◌}
use linux_tutorial.Platform.{
  Signal, sig_int, sig_quit, sig_term, sig_abrt, sig_hup, sig_bus, sig_pipe, handled, ignored,
  af_inet, Address, inet, error, warn, Buffer, sigaction, set_quit, app_quit, socket, connect, send,
  close, sleep_ms, Io, perform, after, log, is_zero, is_negative, minus_one,
}

abbrev pub server_host : String
server_host = "0.0.0.0"

abbrev pub server_port : ℕ
server_port = 5566

abbrev server_addr : Address
server_addr = inet server_host server_port

-- The bytes of `buffer` that `strlen` counts: those before the NUL.
abbrev pub greeting : List ℕ
greeting = codes "Hello, TCP Server"

pub handle_signal : Signal → Io (Unit {0})
handle_signal signum = do perform set_quit; log warn "receive signal %d"

pub register_signal : Io (Unit {0})
register_signal = do
  perform (sigaction sig_int handled)
  perform (sigaction sig_quit handled)
  perform (sigaction sig_term handled)
  perform (sigaction sig_abrt handled)
  perform (sigaction sig_hup ignored)
  perform (sigaction sig_bus ignored)
  perform (sigaction sig_pipe ignored)
  ret tt

unfoldable pub send_loop : ℕ → ℤ → Io (Option (Unit {0}))
send_loop zero sock = ret none
send_loop (suc n) sock = do
  quit ← perform app_quit
  elim quit [
    | true ↦ ret (some tt)
    | false ↦ do
      wsize ← perform (send sock (map some greeting))
      elim (is_negative wsize) [
        | true ↦ do log error "client send failed with [%d]%s"; ret (some tt)
        | false ↦ do perform (sleep_ms 1000); send_loop n sock
      ]
  ]

-- `main` from the `connect` on.
pub talk : ℕ → ℤ → Io (Option ℤ)
unfolding send_loop
talk n sock = do
  connected ← perform (connect sock server_addr)
  elim (is_zero connected) [
    | false ↦ do log error "connect failed with [%d]%s"; perform (close sock); ret (some minus_one)
    | true ↦ after (send_loop n sock) do perform (close sock); ret (some (pos 0))
  ]

pub main : ℕ → Io (Option ℤ)
unfolding register_signal talk
main n = do register_signal; sock ← perform (socket af_inet); talk n sock
