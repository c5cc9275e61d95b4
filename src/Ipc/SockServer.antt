-- ===== src/Ipc/SockServer.antt =====
-- ipc/sock_server.c: a server on a local socket, with a thread for each client.
pub mod Serving
pub mod Accepting
pub mod Failing
pub mod Ordering
use linux_tutorial.Prelude.{String, ℕ, zero, suc, Bool, true, false, Option, none, some}
use linux_tutorial.Prelude.Int.{ℤ, pos}
use linux_tutorial.Prog.{ret, ◌>>=◌, ◌>>◌}
use linux_tutorial.Platform.{
  af_local, Address, local, Session, Received, filled, app_quit, socket, bind, listen, accept, recv,
  close, malloc, access, free, pthread_create, pthread_start, pthread_join, unlink, puts, puts_text,
  Io, perform, after, is_zero, is_null, is_negative, is_positive,
}

-- `client_session`; nothing reads its `thread` and its `address`.
abbrev pub ClientSession : Type 0
ClientSession = Session

abbrev pub sock_name : String
sock_name = "/tmp/message.sock"

abbrev server_addr : Address
server_addr = local sock_name

-- The loop of `process_thread`; `none` when the rounds run out.
pub process_loop : ℕ → ClientSession → Io (Option (Unit {0}))
process_loop zero session = ret none
process_loop (suc n) session = do
  quit ← perform app_quit
  elim quit [
    | true ↦ ret (some tt)
    | false ↦ do
      perform (access session.addr)
      r ← perform (recv session.sock 1024)
      elim (is_negative r.size) [
        | true ↦ do perform (puts "recv failed with [%d]%s\n"); ret (some tt)
        | false ↦ elim (is_zero r.size) [
          | true ↦ do perform (puts "client disconnected\n"); ret (some tt)
          | false ↦ do perform (puts_text "%s" (filled 1024 r.bytes)); process_loop n session
        ]
      ]
  ]

pub process_thread : ℕ → ClientSession → Io (Option (Unit {0}))
unfolding process_loop
process_thread n session = after (process_loop n session) do
  perform (access session.addr)
  perform (close session.sock)
  perform (free session.addr)
  ret (some tt)

-- What the accept loop does with a client. Nothing is given back where a step fails.
pub start_session : ℤ → Io (Unit {0})
start_session client_fd = do
  perform (puts "client connected from %s\n")
  addr ← perform (malloc "client_session")
  elim (is_null addr) [
    | true ↦ ret tt
    | false ↦ do
      perform (access addr)
      let session : ClientSession = record { addr = addr; sock = client_fd }
      created ← perform (pthread_create session)
      elim (is_zero created) [
        | true ↦ ret tt
        | false ↦ perform (puts "create thread failed with [%d]%s\n")
      ]
  ]

pub accept_loop : ℕ → ℤ → Io (Option (Unit {0}))
unfolding start_session
accept_loop zero server_fd = ret none
accept_loop (suc n) server_fd = do
  quit ← perform app_quit
  elim quit [
    | true ↦ ret (some tt)
    | false ↦ do
      client_fd ← perform (accept server_fd)
      elim (is_positive client_fd) [
        | true ↦ start_session client_fd
        | false ↦ perform (puts "accept failed with [%d]%s\n")
      ]
      accept_loop n server_fd
  ]

-- `listen_thread` from the `bind` on.
pub serve : ℕ → ℤ → Io (Option (Unit {0}))
unfolding accept_loop
serve n server_fd = do
  bound ← perform (bind server_fd server_addr)
  elim (is_zero bound) [
    | false ↦ do perform (puts "bind failed with [%d]%s\n"); ret (some tt)
    | true ↦ do
      listening ← perform (listen server_fd 8)
      elim (is_zero listening) [
        | false ↦ do perform (puts "listen failed with [%d]%s\n"); ret (some tt)
        | true ↦ do
          perform (puts "listen client ...\n")
          after (accept_loop n server_fd) do perform (close server_fd); ret (some tt)
      ]
  ]

pub listen_thread : ℕ → Io (Option (Unit {0}))
unfolding serve
listen_thread n = do
  unlinked ← perform (unlink sock_name)
  elim (is_zero unlinked) [ true ↦ ret tt | false ↦ perform (puts "unlink failed with [%d]%s\n") ]
  server_fd ← perform (socket af_local)
  serve n server_fd

pub main : Io ℤ
main = do
  created ← perform (pthread_start "listen_thread")
  elim (is_zero created) [
    | false ↦ do perform (puts "create listen thread failed with [%d]%s\n"); ret (pos 0)
    | true ↦ do perform (pthread_join "listen_thread"); ret (pos 0)
  ]
