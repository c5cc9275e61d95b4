-- ===== src/Platform/Process/Rounds.antt =====
-- A thread that has made few calls yet: a loop that has more rounds than that has one left.
use linux_tutorial.Prelude.{ℕ, suc, ◌≤◌}
use linux_tutorial.Prog.Logic.{Monitor}
use linux_tutorial.Platform.{Call, Reply}

-- The calls that were made, and that they are no more than `most`.
abbrev pub at_most : ℕ → Monitor Call Reply
at_most most = record {
  State = ℕ;
  Allowed = λ _ _. Unit;
  Documented = λ made c r. suc made ≤ most;
  next = λ made c r. suc made;
}
