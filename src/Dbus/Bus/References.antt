-- ===== src/Dbus/Bus/References.antt =====
-- Which connections and messages a D-Bus program holds a reference to. The documents that are used: a
-- new message is none that is still held, and a connection that is closed is told by
-- `dbus_connection_read_write`.
use linux_tutorial.Prelude.{
  ℕ, suc, ◌≤◌, ◌≡◌, Bool, true, false, ◌||◌, List, [], ◌∷◌, ◌==◌, if◌then◌else◌,
}
use linux_tutorial.Prelude.Int.{pos}
use linux_tutorial.Prog.Logic.{Monitor}
use linux_tutorial.Platform.{is_null}
use linux_tutorial.Dbus.Bus.{
  Call, Reply, bus_get, bus_get_unique_name, bus_request_name, bus_add_match, connection_add_filter,
  connection_set_watch_functions, connection_read_write_dispatch, connection_read_write,
  connection_pop_message, connection_send, connection_flush, connection_unref, message_get,
  message_new_signal, message_new_method_call, message_iter_init_append, message_iter_append_basic,
  message_unref,
}

-- `given` are the messages popped and the method calls made, and `reads` counts `read_write`.
pub record Refs : Type 0 where
  pub connections : List ℕ
  pub messages : List ℕ
  pub given : List ℕ
  pub reads : ℕ

abbrev pub has : ℕ → List ℕ → Bool
has p [] = false
has p (q ∷ qs) = p == q || has p qs

abbrev pub give_up : ℕ → List ℕ → List ℕ
give_up p [] = []
give_up p (q ∷ qs) = if p == q then qs else q ∷ give_up p qs

abbrev pub gain : ℕ → List ℕ → List ℕ
gain p ps = if is_null p then ps else p ∷ ps

abbrev pub Allowed : Refs → Call → Type 0
Allowed s (bus_get_unique_name c) = has c s.connections ≡ true
Allowed s (bus_request_name c _) = has c s.connections ≡ true
Allowed s (bus_add_match c _) = has c s.connections ≡ true
Allowed s (connection_add_filter c _) = has c s.connections ≡ true
Allowed s (connection_set_watch_functions c) = has c s.connections ≡ true
Allowed s (connection_read_write_dispatch c _) = has c s.connections ≡ true
Allowed s (connection_read_write c _) = has c s.connections ≡ true
Allowed s (connection_pop_message c) = has c s.connections ≡ true
Allowed s (connection_send c p) = (has c s.connections ≡ true) × (has p s.messages ≡ true)
Allowed s (connection_flush c) = has c s.connections ≡ true
Allowed s (connection_unref c) = has c s.connections ≡ true
Allowed s (message_get p _) = has p s.messages ≡ true
Allowed s (message_iter_init_append p) = has p s.messages ≡ true
Allowed s (message_iter_append_basic p _) = has p s.messages ≡ true
Allowed s (message_unref p) = has p s.messages ≡ true
Allowed s _ = Unit

abbrev pub Documented : ℕ → Refs → (c : Call) → Reply c → Type 0
Documented m s (connection_pop_message _) p = has p s.messages ≡ false
Documented m s (message_new_signal _ _ _) p = has p s.messages ≡ false
Documented m s (message_new_method_call _ _ _ _) p = has p s.messages ≡ false
Documented m s (connection_read_write _ _) r = m ≤ s.reads → r ≡ pos 0
Documented m s _ _ = Unit

abbrev pub next : Refs → (c : Call) → Reply c → Refs
next s bus_get p = record s { connections = gain p s.connections }
next s (connection_unref c) r = record s { connections = give_up c s.connections }
next s (connection_pop_message _) p = record s {
  messages = gain p s.messages;
  given = gain p s.given;
}
next s (message_new_signal _ _ _) p = record s { messages = gain p s.messages }
next s (message_new_method_call _ _ _ _) p = record s {
  messages = gain p s.messages;
  given = gain p s.given;
}
next s (message_unref p) r = record s { messages = give_up p s.messages }
next s (connection_read_write _ _) r = record s { reads = suc s.reads }
next s _ _ = s

-- The peer goes away at read number `m` at the latest.
abbrev pub references : ℕ → Monitor Call Reply
references m = record { State = Refs; Allowed = Allowed; Documented = Documented m; next = next }

-- Before `main`.
abbrev pub nothing : Refs
nothing = record { connections = []; messages = []; given = []; reads = 0 }
