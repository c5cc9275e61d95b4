-- ===== src/Platform/Dispositions.antt =====
-- What each signal does, as `sigaction` sets it.
use linux_tutorial.Prelude.{◌≡◌, Bool, true, false, ◌&&◌, if◌then◌else◌}
use linux_tutorial.Prelude.Int.{pos}
use linux_tutorial.Prog.Logic.{Monitor}
use linux_tutorial.Platform.{
  Signal, sig_int, sig_quit, sig_term, sig_abrt, sig_segv, sig_hup, sig_bus, sig_pipe, sig_usr1,
  Disposition, handled, ignored, Call, Reply, sigaction, is_zero,
}

abbrev pub same_signal : Signal → Signal → Bool
same_signal sig_int sig_int = true
same_signal sig_quit sig_quit = true
same_signal sig_term sig_term = true
same_signal sig_abrt sig_abrt = true
same_signal sig_segv sig_segv = true
same_signal sig_hup sig_hup = true
same_signal sig_bus sig_bus = true
same_signal sig_pipe sig_pipe = true
same_signal sig_usr1 sig_usr1 = true
same_signal _ _ = false

abbrev pub dispose : (Signal → Disposition) → (c : Call) → Reply c → Signal → Disposition
dispose s (sigaction g d) r x = if is_zero r && same_signal g x then d else s x
dispose s _ _ x = s x

-- `sigaction` fails only for an invalid signal, SIGKILL and SIGSTOP.
abbrev pub Succeeds : (c : Call) → Reply c → Type 0
Succeeds (sigaction _ _) r = r ≡ pos 0
Succeeds _ _ = Unit

abbrev pub dispositions : Monitor Call Reply
dispositions = record {
  State = Signal → Disposition;
  Allowed = λ _ _. Unit;
  Documented = λ _. Succeeds;
  next = dispose;
}

-- The four signals that ask the program to stop are handled, three others are ignored, and the rest
-- is left alone.
abbrev pub asked : (Signal → Disposition) → Signal → Disposition
asked s sig_int = handled
asked s sig_quit = handled
asked s sig_term = handled
asked s sig_abrt = handled
asked s sig_hup = ignored
asked s sig_bus = ignored
asked s sig_pipe = ignored
asked s g = s g
