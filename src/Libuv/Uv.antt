-- ===== src/Libuv/Uv.antt =====
-- The calls of libuv that libuv/tcp_client.c and libuv/tcp_server.c make. The event loop is known by
-- its documents alone: it hands over one event after another, until nothing is left to wait for.
pub mod Stages
pub mod Buffers
pub mod Storage
use linux_tutorial.Prelude.{ℕ, zero, suc, Option, none, some, String}
use linux_tutorial.Prelude.Int.{ℤ, negsuc}
use linux_tutorial.Prog.{Prog, ret, call, ◌>>=◌}

-- The `uv_tcp_t` variables: that of `main`, and the one of a call of `on_connection`.
pub data Handle : Type 0 where
  sock client : Handle

-- `uv_buf_t`
pub record Buf : Type 0 where
  pub base : ℕ
  pub len : ℕ

-- What the loop calls back for: the end of a `uv_tcp_connect` or a new connection, each with its
-- status, the wish for a buffer of a suggested size, and the end of a read with its `nread`.
pub data Event : Type 0 where
  connected connection : ℤ → Event
  allocation : ℕ → Event
  read : ℤ → Event

pub data Call : Type 0 where
  default_loop : Call
  tcp_init : Handle → Call
  ip4_addr : String → ℕ → Call
  tcp_bind : Handle → Call
  listen : Handle → ℕ → Call
  tcp_connect : Handle → Call
  accept : Handle → Handle → Call
  read_start : Handle → Call
  close : Handle → Call
  next_event : Call  -- inside of `uv_run`; `none` is the end of the loop
  malloc : ℕ → Call
  free : ℕ → Call
  printf : String → Call
  end_of : Handle → Call  -- the block of an automatic variable is left

abbrev pub Reply : Call → Type 0
Reply next_event = Option Event
Reply (malloc _) = ℕ
Reply default_loop = Unit
Reply (free _) = Unit
Reply (printf _) = Unit
Reply (end_of _) = Unit
Reply _ = ℤ

abbrev pub Io : Type 0 → Type 0
Io A = Prog Call Reply A

abbrev pub perform : (c : Call) → Io (Reply c)
perform c = call c ret

-- UV_EOF on Linux.
abbrev pub eof : ℤ
eof = negsuc 4094

-- `uv_run` with a program's callbacks. A read is called back with the buffer that was made last;
-- `none` when the rounds run out.
unfoldable pub uv_run : (Event → Buf → Io Buf) → ℕ → Buf → Io (Option (Unit {0}))
uv_run callback zero buf = ret none
uv_run callback (suc n) buf = do
  event ← perform next_event
  elim event [ none ↦ ret (some tt) | some e ↦ do buf' ← callback e buf; uv_run callback n buf' ]

-- Before the first buffer.
abbrev pub no_buf : Buf
no_buf = record { base = 0; len = 0 }
