-- ===== src/Platform/Faults.antt =====
-- A platform on which no thread can be started, and who sets the quit flag.
use linux_tutorial.Prelude.{◌≡◌, Bool, true, false}
use linux_tutorial.Prog.Logic.{Monitor}
use linux_tutorial.Platform.{Call, Reply, app_quit, set_quit, pthread_create, is_zero}

abbrev NoThread : (c : Call) → Reply c → Type 0
NoThread (pthread_create _) r = is_zero r ≡ false
NoThread _ _ = Unit

-- No thread can be started.
abbrev pub no_threads : Monitor Call Reply
no_threads = record {
  State = Unit {0};
  Allowed = λ _ _. Unit;
  Documented = λ _. NoThread;
  next = λ _ _ _. tt;
}

-- The quit flag is read as set only if it was set.
abbrev Asked : Bool → (c : Call) → Reply c → Type 0
Asked s app_quit r = r ≡ true → s ≡ true
Asked s _ _ = Unit

abbrev asks : Bool → (c : Call) → Reply c → Bool
asks s set_quit r = true
asks s _ _ = s

-- The state is whether the quit flag was ever set.
abbrev pub asked : Monitor Call Reply
asked = record { State = Bool; Allowed = λ _ _. Unit; Documented = Asked; next = asks }
