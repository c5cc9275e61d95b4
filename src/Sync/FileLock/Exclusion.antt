-- ===== src/Sync/FileLock/Exclusion.antt =====
-- The two processes of sync/file_lock.c side by side, and the locks that the kernel gives them.
use linux_tutorial.Prelude.{
  ℕ, Bool, true, false, Option, ◌≡◌, ◌&&◌, ◌==◌, ◌∙◌, inl, inr, Bool-cases, refl, arith,
}
use linux_tutorial.Prelude.Int.{ℤ}
use linux_tutorial.Prog.{call}
use linux_tutorial.Prog.Logic.{Ensures}
use linux_tutorial.Platform.{
  Call, Reply, Io, Lock, read_lock, write_lock, unlocked, setlkw, close, sleep_ms, after, is_zero,
}
use linux_tutorial.Platform.Locks.{locks, lock_after, ZeroOrError}
use linux_tutorial.Sync.FileLock.{process_write, process_read, leave}
use linux_tutorial.Sync.FileLock.Holding.{
  process_write-Holds, process_read-Holds, after-leave-Holds,
}

-- Where each process is, and the lock that it has on the file.
pub record System : Type 0 where
  pub writer : Io (Option ℤ)
  pub writer_lock : Lock
  pub reader : Io (Option ℤ)
  pub reader_lock : Lock

-- Two processes may have these locks at once.
abbrev pub shared : Lock → Lock → Bool
shared unlocked _ = true
shared _ unlocked = true
shared read_lock read_lock = true
shared _ _ = false

-- The kernel sets no lock that excludes the one of the other process.
abbrev pub Grants : Lock → (c : Call) → Reply c → Type 0
Grants theirs (setlkw _ lock) r = is_zero r ≡ true → shared lock theirs ≡ true
Grants theirs _ _ = Unit

-- Either process makes its next call.
pub data Step : System → System → Type 0 where
  write_step :
      (c : Call) (k : Reply c → Io (Option ℤ)) (r : Reply c) (mine theirs : Lock)
      (other : Io (Option ℤ))
      → ZeroOrError c r
      → Grants theirs c r
      → Step
          (record { writer = call c k; writer_lock = mine; reader = other; reader_lock = theirs })
          (record {
            writer = k r;
            writer_lock = lock_after mine c r;
            reader = other;
            reader_lock = theirs;
          })
  read_step :
      (c : Call) (k : Reply c → Io (Option ℤ)) (r : Reply c) (mine theirs : Lock)
      (other : Io (Option ℤ))
      → ZeroOrError c r
      → Grants theirs c r
      → Step
          (record { writer = other; writer_lock = theirs; reader = call c k; reader_lock = mine })
          (record {
            writer = other;
            writer_lock = theirs;
            reader = k r;
            reader_lock = lock_after mine c r;
          })

pub data Reach (s : System) : System → Type 0 where
  here : Reach s s
  next : {t u : System} → Reach s t → Step t u → Reach s u

-- After the `fork`, with no lock held.
abbrev pub forked : ℕ → ℕ → ℤ → System
forked n m fd = record {
  writer = after (process_write n fd) (leave fd);
  writer_lock = unlocked;
  reader = after (process_read m fd) (leave fd);
  reader_lock = unlocked;
}

-- The process is about to sleep its 2 seconds with the lock.
abbrev pub works : Io (Option ℤ) → Bool
works (call (sleep_ms n) k) = n == 2000
works _ = false

abbrev IsSafe : System → Type 0
IsSafe s =
    Ensures (locks write_lock) s.writer_lock s.writer (λ _ _. Unit)
    × Ensures (locks read_lock) s.reader_lock s.reader (λ _ _. Unit)
    × (shared s.writer_lock s.reader_lock ≡ true)

shared_sym : (a b : Lock) → shared a b ≡ shared b a
shared_sym a b = ground arith

lock_after-shared :
    (c : Call) (r : Reply c) (mine theirs : Lock)
    → Grants theirs c r
    → shared mine theirs ≡ true
    → shared (lock_after mine c r) theirs ≡ true
lock_after-shared (setlkw _ lock) r mine theirs granted h = ground (arith, granted)
lock_after-shared (close _) r mine theirs granted h = refl
lock_after-shared _ r mine theirs granted h = h

Step-IsSafe : {s t : System} → Step s t → IsSafe s → IsSafe t
Step-IsSafe (write_step c k r mine theirs other d granted) (w, e, h) =
    (w.1 r d, e, lock_after-shared c r mine theirs granted h)
Step-IsSafe (read_step c k r mine theirs other d granted) (w, e, h) =
    (w, e.1 r d, shared_sym _ _ ∙ lock_after-shared c r mine theirs granted (shared_sym _ _ ∙ h))

Reach-IsSafe : {s t : System} → IsSafe s → Reach s t → IsSafe t
Reach-IsSafe h here = h
Reach-IsSafe h (next r step) = Step-IsSafe step (Reach-IsSafe h r)

works-Holds :
    (wanted s : Lock) (p : Io (Option ℤ))
    → Ensures (locks wanted) s p (λ _ _. Unit)
    → works p ≡ true
    → s ≡ wanted
works-Holds wanted s (call (sleep_ms n) k) h e = h.0 e
works-Holds wanted s _ h e = cc

-- However the steps of the two processes follow each other, and whichever calls fail, the writer and
-- the reader never work at the same time.
pub forked_exclusion :
    (n m : ℕ) (fd : ℤ) {s : System}
    → Reach (forked n m fd) s
    → (works s.writer && works s.reader) ≡ false
forked_exclusion n m fd {s} reached =
    let (w, e, h) =
      Reach-IsSafe
        (
          after-leave-Holds write_lock unlocked fd (process_write n fd)
              (process_write-Holds n unlocked fd),
          after-leave-Holds read_lock unlocked fd (process_read m fd)
              (process_read-Holds m unlocked fd),
          refl,
        )
        reached in
    elim (Bool-cases (works s.writer)) [
      | inl at_work ↦ elim (Bool-cases (works s.reader)) [
        | inl reads ↦
            let locked : s.writer_lock ≡ write_lock = works-Holds write_lock _ s.writer w at_work in
            let too : s.reader_lock ≡ read_lock = works-Holds read_lock _ s.reader e reads in
            absurd (ground (arith, h, locked, too))
        | inr idle ↦ rw (at_work, idle) refl
      ]
      | inr idle ↦ rw idle refl
    ]
