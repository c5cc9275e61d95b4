-- ===== src/Ipc/MqProducer.antt =====
-- ipc/mq_producer.c: a thread that puts counted messages on a queue and one that takes them off.
pub mod Messages
pub mod Printing
use linux_tutorial.Prelude.{
  String, ℕ, zero, suc, ◌+◌, Bool, true, false, Option, none, some, List, [], ◌++◌,
}
use linux_tutorial.Prelude.Int.{ℤ, pos}
use linux_tutorial.Prelude.Text.{codes}
use linux_tutorial.Prelude.Decimal.{decimal}
use linux_tutorial.Prog.{ret, ◌>>=◌, ◌>>◌}
use linux_tutorial.Platform.{
  Signal, sig_usr1, handled, Received, Buffer, filled, sprintf, c_string, sigaction, app_quit,
  set_quit, pthread_start, pthread_join, pthread_kill, puts, puts_text, read_write_create, mq_open,
  mq_getattr, mq_send, mq_receive, mq_close, sleep_ms, Io, perform, after, is_zero, is_negative,
}

abbrev pub mq_name : String
mq_name = "/mqdemo"

-- MQ_MESSAGE_FMT at a count.
unfoldable pub message : ℕ → List ℕ
message count = codes "Hello, Receiver; count[" ++ (decimal count ++ codes "].")

-- What `mq_send` gets of the array: `strlen(buf)` bytes.
abbrev pub or_empty : Option (List ℕ) → List ℕ
or_empty none = []
or_empty (some t) = t

abbrev pub text_of : Buffer → List ℕ
text_of buf = or_empty (c_string buf)

-- The loop of `send_thread`. The int `count` is a natural number, as it is below 2^31.
-- `none` when the rounds run out or the text does not fit.
unfoldable pub send_loop : ℕ → ℤ → ℕ → Io (Option (Unit {0}))
send_loop zero mq count = ret none
send_loop (suc n) mq count = do
  quit ← perform app_quit
  elim quit [
    | true ↦ ret (some tt)
    | false ↦ elim (sprintf 128 (message (count + 1))) [
      | none ↦ ret none
      | some buf ↦ do
        wsize ← perform (mq_send mq (text_of buf))
        elim (is_negative wsize) [
          | true ↦ perform (puts "mq_send error with %s\n")
          | false ↦ perform (puts "send message ...\n")
        ]
        perform (sleep_ms 1000)
        send_loop n mq (count + 1)
    ]
  ]

unfoldable pub send_thread : ℕ → ℤ → Io (Option (Unit {0}))
unfolding send_loop
send_thread n mq = send_loop n mq 0

-- The loop of `receive_thread`. The queue may write `msgsize` bytes to an array of 128.
unfoldable pub receive_loop : ℕ → ℤ → ℕ → Io (Option (Unit {0}))
receive_loop zero mq msgsize = ret none
receive_loop (suc n) mq msgsize = do
  quit ← perform app_quit
  elim quit [
    | true ↦ ret (some tt)
    | false ↦ do
      r ← perform (mq_receive mq msgsize)
      elim (is_negative r.size) [
        | true ↦ perform (puts "mq_receive error with [%d]%s\n")
        | false ↦ elim (is_zero r.size) [
          | true ↦ ret tt
          | false ↦ do perform (puts_text "%s" (filled 128 r.bytes)); perform (puts "\n")
        ]
      ]
      receive_loop n mq msgsize
  ]

unfoldable pub receive_thread : ℕ → ℤ → Io (Option (Unit {0}))
unfolding receive_loop
receive_thread n mq = do
  msgsize ← perform (mq_getattr mq)
  perform (puts "####################\n")
  perform (puts "# mq_msgsize: %ld\n")
  perform (puts "# mq_maxmsg: %ld\n")
  perform (puts "# mq_curmsgs: %ld\n")
  perform (puts "# mq_flags: %ld\n")
  perform (puts "####################\n")
  receive_loop n mq msgsize

pub signal_handler : Signal → Io (Unit {0})
signal_handler signum = perform (puts "Thread[%d] receive signal %d\n")

-- The threads' own calls are those of `send_thread` and `receive_thread`.
pub main : Io ℤ
main = do
  perform (sigaction sig_usr1 handled)
  mq ← perform (mq_open mq_name read_write_create)
  elim (is_negative mq) [
    | true ↦ do perform (puts "open producer mq failed with %s\n"); ret (pos 0)
    | false ↦ do
      perform (puts "open mq success\n")
      perform (pthread_start "send_thread")
      perform (pthread_start "receive_thread")
      perform (sleep_ms 20000)
      perform set_quit
      perform (pthread_kill "send_thread" sig_usr1)
      perform (pthread_kill "receive_thread" sig_usr1)
      perform (pthread_join "send_thread")
      perform (pthread_join "receive_thread")
      perform (mq_close mq)
      ret (pos 0)
  ]
