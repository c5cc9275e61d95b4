-- ===== src/Dbus/Bus/Mail.antt =====
-- What a D-Bus program sends, where every call succeeds.
use linux_tutorial.Prelude.{
  ℕ, ◌≡◌, ◌≢◌, Bool, true, false, List, [], ◌∷◌, ◌++◌, ◌==◌, if◌then◌else◌, String,
}
use linux_tutorial.Prelude.Int.{pos}
use linux_tutorial.Prog.Logic.{Monitor}
use linux_tutorial.Dbus.Bus.{
  Arg, Call, Reply, bus_get, connection_send, connection_flush, message_new_signal,
  message_new_method_call, message_iter_append_basic,
}

-- A message with its arguments: path, interface and name, and the destination of a method call.
pub data Mail : Type 0 where
  signal : String → String → String → List Arg → Mail
  method_call : String → String → String → String → List Arg → Mail

abbrev pub with_arg : Mail → Arg → Mail
with_arg (signal p i n args) a = signal p i n (args ++ (a ∷ []))
with_arg (method_call d p i n args) a = method_call d p i n (args ++ (a ∷ []))

-- The message made last, what it holds, what was sent, and whether all of it was flushed.
pub record Outbox : Type 0 where
  pub message : ℕ
  pub mail : Mail
  pub sent : List Mail
  pub flushed : Bool

abbrev pub Succeeds : (c : Call) → Reply c → Type 0
Succeeds bus_get p = p ≢ 0
Succeeds (message_new_signal _ _ _) p = p ≢ 0
Succeeds (message_new_method_call _ _ _ _) p = p ≢ 0
Succeeds (message_iter_append_basic _ _) r = r ≡ pos 1
Succeeds (connection_send _ _) r = r ≡ pos 1
Succeeds _ _ = Unit

abbrev pub next : Outbox → (c : Call) → Reply c → Outbox
next s (message_new_signal p i n) m = record s { message = m; mail = signal p i n [] }
next s (message_new_method_call d p i n) m = record s { message = m; mail = method_call d p i n [] }
next s (message_iter_append_basic m a) r =
    if m == s.message then record s { mail = with_arg s.mail a } else s
next s (connection_send _ m) r =
    if m == s.message then record s { sent = s.sent ++ (s.mail ∷ []); flushed = false } else s
next s (connection_flush _) r = record s { flushed = true }
next s _ _ = s

abbrev pub outbox : Monitor Call Reply
outbox = record { State = Outbox; Allowed = λ _ _. Unit; Documented = λ _. Succeeds; next = next }

-- Before `main`.
abbrev pub nothing_sent : Outbox
nothing_sent = record { message = 0; mail = signal "" "" "" []; sent = []; flushed = false }
