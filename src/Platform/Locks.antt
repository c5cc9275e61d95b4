-- ===== src/Platform/Locks.antt =====
-- The lock that one process holds on the file, and the work that wants it: the sleep of 2 seconds.
use linux_tutorial.Prelude.{◌≡◌, ◌⊎◌, ◌==◌, true, if◌then◌else◌}
use linux_tutorial.Prog.Logic.{Monitor}
use linux_tutorial.Platform.{
  Call, Reply, Lock, unlocked, setlkw, sleep_ms, close, is_zero, is_error,
}

-- A process that works holds the lock `wanted`.
abbrev pub Holds : Lock → Lock → Call → Type 0
Holds wanted s (sleep_ms n) = (n == 2000) ≡ true → s ≡ wanted
Holds wanted s _ = Unit

-- A call that fails leaves the lock as it was; `close` gives it up.
abbrev pub lock_after : Lock → (c : Call) → Reply c → Lock
lock_after s (setlkw _ lock) r = if is_zero r then lock else s
lock_after s (close _) r = unlocked
lock_after s _ _ = s

-- `fcntl` returns 0 or -1.
abbrev pub ZeroOrError : (c : Call) → Reply c → Type 0
ZeroOrError (setlkw _ _) r = (is_zero r ≡ true) ⊎ (is_error r ≡ true)
ZeroOrError _ _ = Unit

abbrev pub locks : Lock → Monitor Call Reply
locks wanted = record {
  State = Lock;
  Allowed = Holds wanted;
  Documented = λ _. ZeroOrError;
  next = lock_after;
}
