-- ===== src/Platform/Deadline.antt =====
-- When the quit flag is set. `deadline n`: from its `n`-th read on, counted from 0, it is read as set;
-- `raised n`: and before not. And when a peer hangs up.
use linux_tutorial.Prelude.{ℕ, suc, ◌≤◌, ◌≡◌, true, false, leb}
use linux_tutorial.Prog.Logic.{Monitor}
use linux_tutorial.Platform.{Call, Reply, app_quit, recv, is_positive}

abbrev pub InTime : ℕ → ℕ → (c : Call) → Reply c → Type 0
InTime n s app_quit r = n ≤ s → r ≡ true
InTime n s _ _ = Unit

abbrev pub reads : ℕ → (c : Call) → Reply c → ℕ
reads s app_quit r = suc s
reads s _ _ = s

abbrev pub deadline : ℕ → Monitor Call Reply
deadline n = record { State = ℕ; Allowed = λ _ _. Unit; Documented = InTime n; next = reads }

abbrev pub Exactly : ℕ → ℕ → (c : Call) → Reply c → Type 0
Exactly n s app_quit r = r ≡ leb n s
Exactly n s _ _ = Unit

abbrev pub raised : ℕ → Monitor Call Reply
raised n = record { State = ℕ; Allowed = λ _ _. Unit; Documented = Exactly n; next = reads }

-- The peer hangs up: from the `n`-th `recv` on, counted from 0, none brings any data.
abbrev pub HangsUp : ℕ → ℕ → (c : Call) → Reply c → Type 0
HangsUp n s (recv _ _) r = n ≤ s → is_positive r.size ≡ false
HangsUp n s _ _ = Unit

abbrev pub receives : ℕ → (c : Call) → Reply c → ℕ
receives s (recv _ _) r = suc s
receives s _ _ = s

abbrev pub hung_up : ℕ → Monitor Call Reply
hung_up n = record { State = ℕ; Allowed = λ _ _. Unit; Documented = HangsUp n; next = receives }
