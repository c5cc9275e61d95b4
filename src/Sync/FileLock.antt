-- ===== src/Sync/FileLock.antt =====
-- sync/file_lock.c: a writer and a reader, each a process, that take turns with a lock on a file.
-- Built with USE_SHM, as the file itself sets it.
pub mod Holding
pub mod Exclusion
pub mod Ending
use linux_tutorial.Prelude.{String, ℕ, zero, suc, true, false, Option, none, some}
use linux_tutorial.Prelude.Int.{ℤ, pos}
use linux_tutorial.Prog.{ret, ◌>>=◌, ◌>>◌}
use linux_tutorial.Platform.{
  Signal, sig_int, sig_quit, sig_term, sig_abrt, sig_hup, sig_bus, sig_pipe, handled, ignored,
  fatal, error, warn, info, log, Lock, read_lock, write_lock, unlocked, sigaction, set_quit,
  app_quit, getpid, shm_open, shm_unlink, fork, setlkw, close, sleep_ms, Io, perform, after,
  minus_one, is_zero, is_error, is_negative,
}

abbrev pub lock_shm : String
lock_shm = "shm_lock"

-- What the three helpers share: they differ in `l_type`.
unfoldable pub set_lock : Lock → ℤ → Io ℤ
set_lock lock fd = do
  perform getpid
  r ← perform (setlkw fd lock)
  elim (is_error r) [
    | true ↦ do log error "fcntl failed with [%d]%s"; ret minus_one
    | false ↦ ret (pos 0)
  ]

unfoldable pub file_wlock : ℤ → Io ℤ
unfolding set_lock
file_wlock fd = set_lock write_lock fd

pub file_rlock : ℤ → Io ℤ
unfolding set_lock
file_rlock fd = set_lock read_lock fd

unfoldable pub file_unlock : ℤ → Io ℤ
unfolding set_lock
file_unlock fd = set_lock unlocked fd

-- One turn of the loop of `process_write`: what is done with the lock.
unfoldable pub write_work : ℤ → Io (Unit {0})
unfolding file_unlock
write_work fd = do log info "get write lock"; perform (sleep_ms 2000); file_unlock fd; ret tt

unfoldable pub write_turn : ℤ → Io (Unit {0})
unfolding file_wlock write_work
write_turn fd = do
  locked ← file_wlock fd
  elim (is_zero locked) [ true ↦ write_work fd | false ↦ ret tt ]

-- One turn of the loop of `process_read`: what is done with the lock.
pub read_work : ℤ → Io (Unit {0})
unfolding file_unlock
read_work fd = do log info "get read lock"; perform (sleep_ms 2000); file_unlock fd; ret tt

pub read_turn : ℤ → Io (Unit {0})
unfolding file_rlock read_work
read_turn fd = do
  locked ← file_rlock fd
  elim (is_zero locked) [ true ↦ read_work fd | false ↦ ret tt ]

-- The loops; `none` when the rounds run out.
unfoldable pub process_write : ℕ → ℤ → Io (Option (Unit {0}))
unfolding write_turn
process_write zero fd = ret none
process_write (suc n) fd = do
  quit ← perform app_quit
  elim quit [
    | true ↦ ret (some tt)
    | false ↦ do write_turn fd; perform (sleep_ms 30); process_write n fd
  ]

unfoldable pub process_read : ℕ → ℤ → Io (Option (Unit {0}))
unfolding read_turn
process_read zero fd = ret none
process_read (suc n) fd = do
  quit ← perform app_quit
  elim quit [
    | true ↦ ret (some tt)
    | false ↦ do read_turn fd; perform (sleep_ms 30); process_read n fd
  ]

pub handle_signal : Signal → Io (Unit {0})
handle_signal signum = do perform set_quit; log warn "receive signal %d"

pub register_signal : Io (Unit {0})
register_signal = do
  perform (sigaction sig_int handled)
  perform (sigaction sig_quit handled)
  perform (sigaction sig_term handled)
  perform (sigaction sig_abrt handled)
  perform (sigaction sig_hup ignored)
  perform (sigaction sig_bus ignored)
  perform (sigaction sig_pipe ignored)
  ret tt

-- `main` from the `close` on.
pub leave : ℤ → Io (Option ℤ)
leave fd = do perform (close fd); perform (shm_unlink lock_shm); ret (some (pos 0))

-- `main` from the `fork` on: the child writes, the parent reads.
pub share : ℕ → ℤ → Io (Option ℤ)
unfolding process_write process_read leave
share n fd = do
  pid ← perform fork
  elim (is_error pid) [
    | true ↦ do log fatal "linux fork process failed with [%d]%s"; ret (some minus_one)
    | false ↦
        after (elim (is_zero pid) [ true ↦ process_write n fd | false ↦ process_read n fd ])
          (leave fd)
  ]

pub main : ℕ → Io (Option ℤ)
unfolding register_signal share
main n = do
  register_signal
  fd ← perform (shm_open lock_shm)
  elim (is_negative fd) [
    | true ↦ do log fatal "open lock file failed with [%d]%s"; ret (some minus_one)
    | false ↦ share n fd
  ]
