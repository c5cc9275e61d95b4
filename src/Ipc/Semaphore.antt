-- ===== src/Ipc/Semaphore.antt =====
-- ipc/semaphore.c: three producers post a semaphore and five consumers wait for it.
pub mod Joining
pub mod Working
pub mod Ledger
pub mod Counting
use linux_tutorial.Prelude.{ℕ, zero, suc, ◌+◌, true, false, Option, none, some}
use linux_tutorial.Prelude.Int.{ℤ, pos}
use linux_tutorial.Prog.{ret, ◌>>=◌, ◌>>◌}
use linux_tutorial.Platform.{
  Worker, producer, consumer, Waited, got, etimedout, eintr, other_errno, app_quit, set_quit,
  clear_quit, sem_init, sem_post, sem_timedwait, sem_destroy, clock_gettime, thread_create,
  thread_join, getchar, puts, sleep_ms, Io, perform, after, minus_one, eq_ℤ, is_zero,
}

abbrev pub max_producer_size : ℕ
max_producer_size = 3

abbrev pub max_consumer_size : ℕ
max_consumer_size = 5

-- The loop; `none` when the rounds run out.
pub producer_process_thread : ℕ → Io (Option (Unit {0}))
producer_process_thread zero = ret none
producer_process_thread (suc n) = do
  quit ← perform app_quit
  elim quit [
    | true ↦ ret (some tt)
    | false ↦ do
      posted ← perform sem_post
      elim (is_zero posted) [
        | false ↦ perform (puts "sem_post failed with [%d]%s\n")
        | true ↦ perform (puts "producer %lu post semaphore\n")
      ]
      perform (sleep_ms 1000)
      producer_process_thread n
  ]

-- What a consumer prints of a wait.
unfoldable pub report : Waited → Io (Unit {0})
report got = do perform (puts "consumer %lu get semaphore\n"); ret tt
report etimedout = ret tt
report eintr = ret tt
report other_errno = do perform (puts "sem_wait failed with [%d]%s\n"); ret tt

unfoldable pub consumer_process_thread : ℕ → Io (Option (Unit {0}))
unfolding report
consumer_process_thread zero = ret none
consumer_process_thread (suc n) = do
  quit ← perform app_quit
  elim quit [
    | true ↦ ret (some tt)
    | false ↦ do
      perform clock_gettime
      waited ← perform sem_timedwait
      report waited
      consumer_process_thread n
  ]

-- The loop of `start_producer` from index `i` on, with `k` producers left.
pub start_producers : ℕ → ℕ → Io ℤ
start_producers zero i = ret (pos 0)
start_producers (suc k) i = do
  created ← perform (thread_create producer i)
  elim (is_zero created) [
    | false ↦ do perform (puts "pthread_create failed with [%d]%s\n"); ret minus_one
    | true ↦ start_producers k (i + 1)
  ]

pub start_producer : Io ℤ
unfolding start_producers
start_producer = start_producers max_producer_size 0

-- The loop of `start_consumer`, which goes on where a thread cannot be started.
pub start_consumers : ℕ → ℕ → Io ℤ
start_consumers zero i = ret (pos 0)
start_consumers (suc k) i = do
  created ← perform (thread_create consumer i)
  elim (is_zero created) [
    | false ↦ do perform (puts "pthread_create failed with [%d]%s\n"); ret tt
    | true ↦ ret tt
  ]
  start_consumers k (i + 1)

pub start_consumer : Io ℤ
unfolding start_consumers
start_consumer = start_consumers max_consumer_size 0

-- The loop that waits for the key q; `none` when the rounds run out.
pub read_commands : ℕ → Io (Option (Unit {0}))
read_commands zero = ret none
read_commands (suc n) = do
  cmd ← perform getchar
  elim (eq_ℤ cmd (pos b'q')) [
    | true ↦ ret (some tt)
    | false ↦ do perform (puts "press q to exit\n"); read_commands n
  ]

-- A loop that joins, from index `i` on, with `k` threads left.
pub join_all : Worker → ℕ → ℕ → Io (Unit {0})
join_all w zero i = ret tt
join_all w (suc k) i = do perform (thread_join w i); join_all w k (i + 1)

-- From the label EXIT on.
pub exit_main : Io (Option ℤ)
exit_main = do perform sem_destroy; ret (some (pos 0))

-- `main` from `quit = 1` on.
pub stop : Io (Option ℤ)
unfolding join_all exit_main
stop = do
  perform set_quit
  join_all producer max_producer_size 0
  join_all consumer max_consumer_size 0
  exit_main

-- `main` from `quit = 0` on.
pub work : ℕ → Io (Option ℤ)
unfolding start_producer start_consumer read_commands stop exit_main
work n = do
  perform clear_quit
  started ← start_producer
  elim (is_zero started) [
    | false ↦ do perform (puts "start producer failed\n"); exit_main
    | true ↦ do start_consumer; after (read_commands n) stop
  ]

pub main : ℕ → Io (Option ℤ)
unfolding work
main n = do
  initialised ← perform (sem_init 1)
  elim (is_zero initialised) [
    | false ↦ do perform (puts "sem_init failed with [%d]%s\n"); ret (some minus_one)
    | true ↦ work n
  ]
