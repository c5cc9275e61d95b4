-- ===== src/Libuv/TcpServer/Listening.antt =====
-- The run of libuv/tcp_server.c.
use linux_tutorial.Prelude.{◌≡◌, true}
use linux_tutorial.Prelude.Int.{pos}
use linux_tutorial.Prog.Logic.{Ensures}
use linux_tutorial.Libuv.Uv.Stages.{Stage, listening}
use linux_tutorial.Libuv.Uv.Storage.{Handle, storage}
use linux_tutorial.Libuv.TcpServer.{on_connection}

abbrev Listens : Stage → Type 0
Listens s = s ≡ listening

-- Where a client has connected and `uv_read_start` succeeds, the storage of its handle has ended when
-- `on_connection` returns, and ended while the loop reads on the handle.
pub on_connection-dangles :
    (s : Handle) → Ensures storage s (on_connection (pos 0)) (λ t _. t.left_in_use ≡ true)
unfolding on_connection
on_connection-dangles s =
    (tt, λ _ _. (tt, λ _ _. (tt, λ _ _. (tt, λ _ _. (tt, λ r d. (tt, λ _ _. d))))))
