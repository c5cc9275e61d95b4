-- ===== src/Ipc/SockClient.antt =====
-- ipc/sock_client.c: sends a counted message a second over a local socket.
pub mod Sending
use linux_tutorial.Prelude.{
  String, ℕ, zero, suc, ◌+◌, Bool, true, false, ◌||◌, Option, none, some, List, ◌++◌,
}
use linux_tutorial.Prelude.Int.{ℤ, pos}
use linux_tutorial.Prelude.Text.{codes}
use linux_tutorial.Prelude.Decimal.{decimal}
use linux_tutorial.Prog.{ret, ◌>>=◌, ◌>>◌}
use linux_tutorial.Platform.{
  Signal, sig_segv, sig_pipe, handled, af_local, Address, local, Buffer, sprintf, sigaction,
  app_quit, socket, connect, send, close, pthread_start, pthread_join, getpid, puts, sleep_ms, Io,
  perform, after, is_zero, is_negative,
}

abbrev pub sock_name : String
sock_name = "/tmp/message.sock"

abbrev server_addr : Address
server_addr = local sock_name

-- The text of message `count` of process `pid`.
pub message : ℕ → ℕ → List ℕ
message pid count =
    codes "Message from " ++ (decimal pid ++ (codes ", count[" ++ (decimal count ++ codes "]\n")))

-- The loop of `process_thread`. The int `count` is a natural number, as it is below 2^31. The whole
-- array goes out, not the text alone; `none` when the rounds run out or the text does not fit.
pub send_loop : ℕ → ℤ → ℕ → ℕ → Io (Option (Unit {0}))
send_loop zero sock pid count = ret none
send_loop (suc n) sock pid count = do
  quit ← perform app_quit
  elim quit [
    | true ↦ ret (some tt)
    | false ↦ elim (sprintf 1024 (message pid count)) [
      | none ↦ ret none
      | some buf ↦ do
        size ← perform (send sock buf)
        elim (is_negative size || is_zero size) [
          | true ↦ do perform (puts "send failed with [%d]%s\n"); ret (some tt)
          | false ↦ do
            perform (puts "Send message success\n")
            perform (sleep_ms 1000)
            send_loop n sock pid (count + 1)
        ]
    ]
  ]

pub process_thread : ℕ → ℤ → Io (Option (Unit {0}))
unfolding send_loop
process_thread n sock = do pid ← perform getpid; send_loop n sock pid 0

pub signal_handler : Signal → Io (Unit {0})
signal_handler signum = perform (puts "Receive signal %d\n")

-- `main` from the `connect` on. The thread's own calls are those of `process_thread`.
pub talk : ℤ → Io ℤ
talk server_fd = do
  connected ← perform (connect server_fd server_addr)
  elim (is_zero connected) [
    | false ↦ do perform (puts "connect failed with [%d]%s\n"); ret (pos 0)
    | true ↦ do
      created ← perform (pthread_start "process_thread")
      elim (is_zero created) [
        | false ↦ perform (puts "create thread failed with [%d]%s\n")
        | true ↦ perform (pthread_join "process_thread") >> ret tt
      ]
      perform (close server_fd)
      ret (pos 0)
  ]

pub main : Io ℤ
unfolding talk
main = do
  perform (sigaction sig_segv handled)
  perform (sigaction sig_pipe handled)
  server_fd ← perform (socket af_local)
  talk server_fd
