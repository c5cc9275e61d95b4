-- ===== src/Tests/SyncTests.antt =====
-- The program of sync/ at concrete inputs.
use linux_tutorial.Prelude.{true, false, ◌≡◌, ◌&&◌, ◌⊎◌, inl, some, refl, arith}
use linux_tutorial.Prelude.Int.{pos}
use linux_tutorial.Prog.{ret, ◌>>◌}
use linux_tutorial.Prog.Logic.{Ensures}
use linux_tutorial.Platform.{
  write_lock, unlocked, app_quit, getpid, setlkw, printf, info, minus_one, after, perform, sleep_ms,
}
use linux_tutorial.Platform.Resources.{stdio}
use linux_tutorial.Sync.FileLock
use linux_tutorial.Sync.FileLock.Exclusion.{
  System, Reach, here, next, write_step, forked, works, forked_exclusion,
}
use linux_tutorial.Sync.FileLock.Ending.{ending, file_lock_main_total}

-- The writer has the lock and is about to work.
abbrev at_work : System
at_work = record {
  writer =
      after
        (do
          perform (sleep_ms 2000)
          do FileLock.file_unlock (pos 5); ret tt
          perform (sleep_ms 30)
          FileLock.process_write 2 (pos 5))
        (FileLock.leave (pos 5));
  writer_lock = write_lock;
  reader = after (FileLock.process_read 3 (pos 5)) (FileLock.leave (pos 5));
  reader_lock = unlocked;
}

reach_work : Reach (forked 3 3 (pos 5)) at_work
unfolding FileLock.process_write FileLock.write_turn FileLock.file_wlock FileLock.write_work
    FileLock.set_lock
reach_work =
    next
      (next
        (next (next here (write_step app_quit _ false unlocked unlocked _ tt tt))
          (write_step getpid _ 77 unlocked unlocked _ tt tt))
        (write_step (setlkw (pos 5) write_lock) _ (pos 0) unlocked unlocked _ (inl refl)
          (λ _. refl)))
      (write_step (printf info "get write lock") _ tt write_lock unlocked _ tt tt)

writer_works : works at_work.writer ≡ true
writer_works = refl

forked_exclusion_example : (works at_work.writer && works at_work.reader) ≡ false
forked_exclusion_example = forked_exclusion 3 3 (pos 5) reach_work

file_lock_main_total_example :
    Ensures
      (ending 2)
      (stdio, 0)
      (FileLock.main 3)
      (λ t r. ((t.0 ≡ stdio) × (r ≡ some (pos 0))) ⊎ (r ≡ some minus_one))
file_lock_main_total_example = file_lock_main_total 3 2 (omega arith)
