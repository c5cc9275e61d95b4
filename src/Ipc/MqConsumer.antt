-- ===== src/Ipc/MqConsumer.antt =====
-- ipc/mq_consumer.c: a thread that takes messages off the queue.
pub mod Receiving
pub mod Printing
use linux_tutorial.Prelude.{String, ℕ, zero, suc, Bool, true, false, Option, none, some}
use linux_tutorial.Prelude.Int.{ℤ, pos}
use linux_tutorial.Prog.{ret, ◌>>=◌, ◌>>◌}
use linux_tutorial.Platform.{
  Received, filled, app_quit, set_quit, pthread_start, pthread_join, puts, puts_text, read_only,
  mq_open, mq_getattr, mq_receive, mq_close, sleep_ms, Io, perform, is_zero, is_negative,
}

abbrev pub mq_name : String
mq_name = "/mqdemo"

-- The loop of `receive_thread`. The queue may write `msgsize` bytes to an array of 128.
pub receive_loop : ℕ → ℤ → ℕ → Io (Option (Unit {0}))
receive_loop zero mq msgsize = ret none
receive_loop (suc n) mq msgsize = do
  quit ← perform app_quit
  elim quit [
    | true ↦ ret (some tt)
    | false ↦ do
      r ← perform (mq_receive mq msgsize)
      elim (is_negative r.size) [
        | true ↦ perform (puts "mq_receive error with [%d]%s\n")
        | false ↦ elim (is_zero r.size) [
          | true ↦ ret tt
          | false ↦ do perform (puts_text "%s" (filled 128 r.bytes)); perform (puts "\n")
        ]
      ]
      receive_loop n mq msgsize
  ]

pub receive_thread : ℕ → ℤ → Io (Option (Unit {0}))
unfolding receive_loop
receive_thread n mq = do
  msgsize ← perform (mq_getattr mq)
  perform (puts "####################\n")
  perform (puts "# mq_msgsize: %ld\n")
  perform (puts "# mq_maxmsg: %ld\n")
  perform (puts "# mq_curmsgs: %ld\n")
  perform (puts "# mq_flags: %ld\n")
  perform (puts "####################\n")
  receive_loop n mq msgsize

-- The thread's own calls are those of `receive_thread`.
pub main : Io ℤ
main = do
  mq ← perform (mq_open mq_name read_only)
  elim (is_negative mq) [
    | true ↦ do perform (puts "open consumer mq failed with %s\n"); ret (pos 0)
    | false ↦ do
      perform (pthread_start "receive_thread")
      perform (sleep_ms 20000)
      perform set_quit
      perform (pthread_join "receive_thread")
      perform (mq_close mq)
      ret (pos 0)
  ]
