-- ===== src/Sync/FileLock/Holding.antt =====
-- When the processes of sync/file_lock.c hold the lock.
use linux_tutorial.Prelude.{
  ℕ, zero, suc, true, false, Option, none, some, ◌≡◌, ◌⊎◌, inl, inr, refl, arith,
}
use linux_tutorial.Prelude.Int.{ℤ, pos, negsuc}
use linux_tutorial.Prog.Logic.{Ensures, Ensures-bind}
use linux_tutorial.Platform.{Io, Lock, write_lock, read_lock, unlocked, after, minus_one}
use linux_tutorial.Platform.Locks.{locks}
use linux_tutorial.Sync.FileLock.{
  set_lock, file_wlock, file_rlock, file_unlock, write_work, read_work, write_turn, read_turn,
  process_write, process_read, leave,
}

-- A helper that returns 0 has set its lock; one that returns -1 has left the lock as it was.
pub set_lock-sets :
    (wanted lock s : Lock) (f : ℤ)
    → Ensures
        (locks wanted)
        s
        (set_lock lock f)
        (λ t r. ((t ≡ lock) × (r ≡ pos 0)) ⊎ ((t ≡ s) × (r ≡ minus_one)))
unfolding set_lock
set_lock-sets wanted lock s f = (
  tt,
  λ _ _. (
    tt,
    elim [
      | pos zero ↦ λ _. inl (refl, refl)
      | pos (suc k) ↦ λ d. absurd (ground arith)
      | negsuc zero ↦ λ _. (tt, λ _ _. inr (refl, refl))
      | negsuc (suc k) ↦ λ d. absurd (ground arith)
    ],
  ),
)

write_work-Holds : (f : ℤ) → Ensures (locks write_lock) write_lock (write_work f) (λ _ _. Unit)
unfolding write_work file_unlock
write_work-Holds f = (
  tt,
  λ _ _. (
    (λ _. refl),
    λ _ _.
        Ensures-bind (locks write_lock) write_lock (set_lock unlocked f) _ _ (λ _ _. Unit)
          (set_lock-sets write_lock unlocked write_lock f) λ _ _ _. tt,
  ),
)

write_turn-Holds : (s : Lock) (f : ℤ) → Ensures (locks write_lock) s (write_turn f) (λ _ _. Unit)
unfolding write_turn file_wlock
write_turn-Holds s f =
    Ensures-bind (locks write_lock) s (set_lock write_lock f) _ _ (λ _ _. Unit)
      (set_lock-sets write_lock write_lock s f)
      λ t r. elim [ inl got ↦ rw (got.0, got.1) (write_work-Holds f) | inr failed ↦ rw failed.1 tt ]

pub process_write-Holds :
    (n : ℕ) (s : Lock) (f : ℤ) → Ensures (locks write_lock) s (process_write n f) (λ _ _. Unit)
unfolding process_write
process_write-Holds zero s f = tt
process_write-Holds (suc n) s f = (
  tt,
  elim [
    | true ↦ λ _. tt
    | false ↦ λ _.
        Ensures-bind (locks write_lock) s (write_turn f) _ _ (λ _ _. Unit) (write_turn-Holds s f)
          λ t _ _. ((λ e. absurd (ground arith)), λ _ _. process_write-Holds n t f)
  ],
)

read_work-Holds : (f : ℤ) → Ensures (locks read_lock) read_lock (read_work f) (λ _ _. Unit)
unfolding read_work file_unlock
read_work-Holds f = (
  tt,
  λ _ _. (
    (λ _. refl),
    λ _ _.
        Ensures-bind (locks read_lock) read_lock (set_lock unlocked f) _ _ (λ _ _. Unit)
          (set_lock-sets read_lock unlocked read_lock f) λ _ _ _. tt,
  ),
)

read_turn-Holds : (s : Lock) (f : ℤ) → Ensures (locks read_lock) s (read_turn f) (λ _ _. Unit)
unfolding read_turn file_rlock
read_turn-Holds s f =
    Ensures-bind (locks read_lock) s (set_lock read_lock f) _ _ (λ _ _. Unit)
      (set_lock-sets read_lock read_lock s f)
      λ t r. elim [ inl got ↦ rw (got.0, got.1) (read_work-Holds f) | inr failed ↦ rw failed.1 tt ]

pub process_read-Holds :
    (n : ℕ) (s : Lock) (f : ℤ) → Ensures (locks read_lock) s (process_read n f) (λ _ _. Unit)
unfolding process_read
process_read-Holds zero s f = tt
process_read-Holds (suc n) s f = (
  tt,
  elim [
    | true ↦ λ _. tt
    | false ↦ λ _.
        Ensures-bind (locks read_lock) s (read_turn f) _ _ (λ _ _. Unit) (read_turn-Holds s f)
          λ t _ _. ((λ e. absurd (ground arith)), λ _ _. process_read-Holds n t f)
  ],
)

-- What a process does after its loop wants no lock.
pub after-leave-Holds :
    (wanted s : Lock) (f : ℤ) (m : Io (Option (Unit {0})))
    → Ensures (locks wanted) s m (λ _ _. Unit)
    → Ensures (locks wanted) s (after m (leave f)) (λ _ _. Unit)
unfolding leave
after-leave-Holds wanted s f m h =
    Ensures-bind (locks wanted) s m _ (λ _ _. Unit) (λ _ _. Unit) h
      λ t. elim [ none ↦ λ _. tt | some _ ↦ λ _. (tt, λ _ _. (tt, λ _ _. tt)) ]
