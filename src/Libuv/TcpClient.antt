-- ===== src/Libuv/TcpClient.antt =====
-- libuv/tcp_client.c
pub mod Ending
use linux_tutorial.Prelude.{ℕ, true, false, Option, none, some, String}
use linux_tutorial.Prelude.Int.{ℤ, pos}
use linux_tutorial.Prog.{ret, ◌>>=◌, ◌>>◌}
use linux_tutorial.Platform.{is_zero, is_negative, eq_ℤ}
use linux_tutorial.Libuv.Uv.{
  sock, Buf, Event, connected, connection, allocation, read, default_loop, tcp_init, ip4_addr,
  tcp_connect, read_start, close, malloc, printf, end_of, Io, perform, eof, uv_run, no_buf,
}

abbrev default_ip : String
default_ip = "0.0.0.0"

abbrev default_port : ℕ
default_port = 3000

pub on_allocation : ℕ → Io Buf
on_allocation suggested_size = do
  base ← perform (malloc suggested_size)
  ret (record { base = base; len = suggested_size })

pub on_read : ℤ → Buf → Io (Unit {0})
on_read nread buf = do
  elim (is_negative nread) [
    | true ↦ elim (eq_ℤ eof nread) [
      | true ↦ perform (printf "client disconnect.\n")
      | false ↦ perform (printf "on_read failed with [%s]%s\n")
    ]
    | false ↦ ret tt
  ]
  perform (printf "on_read, nread:%ld, buf_base:0x%08X, buf_len:%ld\n")

pub on_connect : ℤ → Io (Unit {0})
on_connect status = do
  elim (is_zero status) [
    | false ↦ perform (printf "client connect failed with [%s]%s\n")
    | true ↦ do perform (printf "client connect success\n"); perform (read_start sock); ret tt
  ]

pub on_close : Io (Unit {0})
on_close = perform (printf "client disconnect success\n")

-- The callbacks that the program gives to the loop.
pub callback : Event → Buf → Io Buf
unfolding on_connect on_allocation on_read
callback (connected status) buf = do on_connect status; ret buf
callback (connection status) buf = ret buf
callback (allocation size) buf = on_allocation size
callback (read nread) buf = do on_read nread buf; ret buf

-- The loop is not run again after `uv_close`, so `on_close` is not called back.
pub main : ℕ → Io (Option ℤ)
unfolding callback uv_run
main n = do
  perform default_loop
  perform (tcp_init sock)
  perform (ip4_addr default_ip default_port)
  perform (tcp_connect sock)
  ran ← uv_run callback n no_buf
  elim ran [
    | none ↦ ret none
    | some _ ↦ do
      perform (printf "close socket\n")
      perform (close sock)
      perform (end_of sock)
      ret (some (pos 0))
  ]
