-- ===== src/Platform/Process/Prompt.antt =====
-- A program that sees the quit flag soon: between two reads of it that find it unset, there are few
-- calls, and few are left when it is found set.
use linux_tutorial.Prelude.{ℕ, suc, ◌-◌, ◌≤◌, false}
use linux_tutorial.Prog.Logic.{Monitor}
use linux_tutorial.Platform.{Call, Reply, app_quit, pthread_create}

-- A call costs 1, and `pthread_create` what the new thread costs besides.
abbrev pub price : ℕ → Call → ℕ
price session_cost (pthread_create e) = suc session_cost
price session_cost _ = 1

-- What is left to spend: a read that finds the flag unset gives the whole budget again.
abbrev pub spend : ℕ → ℕ → ℕ → (c : Call) → Reply c → ℕ
spend session_cost budget left app_quit false = budget
spend session_cost budget left c r = left - price session_cost c

abbrev pub prompt : ℕ → ℕ → Monitor Call Reply
prompt session_cost budget = record {
  State = ℕ;
  Allowed = λ left c. price session_cost c ≤ left;
  Documented = λ _ _ _. Unit;
  next = spend session_cost budget;
}
