-- ===== src/Dbus/Bus.antt =====
-- The calls of libdbus that dbus/sender.c and dbus/receiver.c make. Connections and messages are
-- pointers, and NULL is 0. The one `DBusError` of each program is not named.
pub mod References
pub mod Errors
pub mod Mail
use linux_tutorial.Prelude.{ℕ, true, false, String}
use linux_tutorial.Prelude.Int.{ℤ, pos}
use linux_tutorial.Prog.{Prog, ret, call, ◌>>=◌, ◌>>◌}

-- An argument of `dbus_message_iter_append_basic`.
pub data Arg : Type 0 where
  int32 : ℕ → Arg
  string : String → Arg

-- What a `dbus_message_get_` function reads.
pub data Field : Type 0 where
  type path interface member sender destination : Field

-- The filters of the receiver, and what a filter answers.
pub data Filter : Type 0 where
  message_handle1 message_handle2 : Filter

pub data HandlerResult : Type 0 where
  handled not_yet_handled : HandlerResult

pub data Call : Type 0 where
  error_init error_free : Call
  bus_get : Call
  bus_get_unique_name : ℕ → Call
  bus_request_name : ℕ → String → Call
  bus_add_match : ℕ → String → Call
  connection_add_filter : ℕ → Filter → Call
  connection_set_watch_functions : ℕ → Call
  connection_read_write_dispatch : ℕ → ℕ → Call
  connection_read_write : ℕ → ℕ → Call
  connection_pop_message : ℕ → Call
  connection_send : ℕ → ℕ → Call
  connection_flush : ℕ → Call
  connection_unref : ℕ → Call
  message_get : ℕ → Field → Call
  message_new_signal : String → String → String → Call
  message_new_method_call : String → String → String → String → Call
  message_iter_init_append : ℕ → Call
  message_iter_append_basic : ℕ → Arg → Call
  message_unref : ℕ → Call
  printf : String → Call
  printf_error : String → Call  -- with the name and message of the error
  sleep : ℕ → Call

abbrev pub Reply : Call → Type 0
Reply bus_get = ℕ
Reply (connection_pop_message _) = ℕ
Reply (message_new_signal _ _ _) = ℕ
Reply (message_new_method_call _ _ _ _) = ℕ
Reply (bus_request_name _ _) = ℤ
Reply (connection_set_watch_functions _) = ℤ
Reply (connection_read_write_dispatch _ _) = ℤ
Reply (connection_read_write _ _) = ℤ
Reply (connection_send _ _) = ℤ
Reply (message_iter_append_basic _ _) = ℤ
Reply _ = Unit

abbrev pub Io : Type 0 → Type 0
Io A = Prog Call Reply A

abbrev pub perform : (c : Call) → Io (Reply c)
perform c = call c ret
