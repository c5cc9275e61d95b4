-- ===== src/Platform/Process.antt =====
-- A process: a main thread and the threads that it starts for its sessions run side by side over one
-- table of descriptors and allocations, and a signal may set the quit flag at any time. The return of
-- the main thread ends the others too.
pub mod Balances
pub mod Owning
pub mod Apart
pub mod Prompt
pub mod Hurry
pub mod Rounds
pub mod Ending
pub mod Server
use linux_tutorial.Prelude.{
  ℕ, suc, ◌≡◌, Bool, true, false, Option, List, [], ◌∷◌, ◌++◌, if◌then◌else◌,
}
use linux_tutorial.Prelude.Int.{ℤ}
use linux_tutorial.Prog.{ret, call}
use linux_tutorial.Platform.{Call, Reply, Io, Session, app_quit, set_quit, pthread_create, is_zero}
use linux_tutorial.Platform.Resources.{Handle, fd, mem, Documented, next}

-- Where a thread is. For the account only: what it owns, and what it goes on to own when it returns.
pub record Thread : Type 0 where
  pub program : Io (Option ℤ)
  pub owns : List Handle
  pub keeps : List Handle

-- What the threads share.
pub record Shared : Type 0 where
  pub quit : Bool
  pub table : List Handle

-- A read of the quit flag.
abbrev pub Flag : Bool → (c : Call) → Reply c → Type 0
Flag quit app_quit r = r ≡ quit
Flag quit _ r = Unit

-- What a thread that was started with a session gets.
abbrev pub given : (c : Call) → Reply c → List Handle
given (pthread_create e) r = if is_zero r then mem e.addr ∷ fd e.sock ∷ [] else []
given _ r = []

-- What a thread hands over to another stays in the table of the process.
abbrev pub table_after : List Handle → (c : Call) → Reply c → List Handle
table_after table (pthread_create e) r = table
table_after table c r = next table c r

abbrev pub flag_after : Bool → (c : Call) → Bool
flag_after quit set_quit = true
flag_after quit _ = quit

abbrev pub after : Shared → (c : Call) → Reply c → Shared
after s c r = record { quit = flag_after s.quit c; table = table_after s.table c r }

-- The first thread is the main thread: when it has returned the process is at its end.
abbrev pub at_end : Io (Option ℤ) → Bool
at_end (ret r) = true
at_end (call c k) = false

abbrev pub exited : List Thread → Bool
exited [] = true
exited (t ∷ ts) = at_end t.program

-- `session` is the program of a session's thread.
module _ (session : Session → Io (Option ℤ)) where
  abbrev pub new_threads : (c : Call) → Reply c → List Thread
  new_threads (pthread_create e) r =
      if is_zero r
      then record { program = session e; owns = given (pthread_create e) r; keeps = [] } ∷ []
      else []
  new_threads _ r = []

  -- One of the threads makes its next call, and memory is ample. `pthread_create` is one move: it has
  -- stored the new thread's ID in the session before that thread runs, as glibc does and POSIX does
  -- not promise.
  pub data Move : Shared → List Thread → Shared → List Thread → Type 0 where
    first :
        (s : Shared) (c : Call) (k : Reply c → Io (Option ℤ)) (owns keeps : List Handle)
        (r : Reply c) (ts : List Thread)
        → Documented true s.table c r
        → Flag s.quit c r
        → Move s (record { program = call c k; owns = owns; keeps = keeps } ∷ ts) (after s c r) (
            record { program = k r; owns = next owns c r; keeps = keeps } ∷ (new_threads c r ++ ts))
    other :
        (t : Thread) {s s' : Shared} {ts ts' : List Thread}
        → Move s ts s' ts'
        → Move s (t ∷ ts) s' (t ∷ ts')

  -- `Reach s ts n s' ts'`: in `n` moves, with signals at any time between.
  pub data Reach (s : Shared) (ts : List Thread) : ℕ → Shared → List Thread → Type 0 where
    here : Reach s ts 0 s ts
    move :
        {n : ℕ} {s' s'' : Shared} {ts' ts'' : List Thread}
        → Reach s ts n s' ts'
        → exited ts' ≡ false
        → Move s' ts' s'' ts''
        → Reach s ts (suc n) s'' ts''
    signal :
        {n : ℕ} {s' : Shared} {ts' : List Thread}
        → Reach s ts n s' ts'
        → Reach s ts n (record s' { quit = true }) ts'
