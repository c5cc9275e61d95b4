-- ===== src/Dbus/Receiver.antt =====
-- dbus/receiver.c: it prints the messages that arrive.
pub mod Receiving
pub mod Refusing
use linux_tutorial.Prelude.{ℕ, zero, suc, true, false, Option, none, some, String}
use linux_tutorial.Prelude.Int.{ℤ, pos}
use linux_tutorial.Prog.{ret, ◌>>=◌, ◌>>◌}
use linux_tutorial.Platform.{is_zero, is_null, eq_ℤ}
use linux_tutorial.Dbus.Bus.{
  type, path, interface, member, sender, destination, message_handle1, message_handle2,
  HandlerResult, handled, not_yet_handled, error_init, error_free, bus_get, bus_get_unique_name,
  bus_request_name, bus_add_match, connection_add_filter, connection_set_watch_functions,
  connection_read_write_dispatch, connection_read_write, connection_pop_message, connection_unref,
  message_get, printf, printf_error, sleep, Io, perform,
}

abbrev pub dbus_name : String
dbus_name = "cn.wangdm.receiver"

-- "type='signal',interface='"DBUS_IFACE"'"
abbrev pub match_rule : String
match_rule = "type='signal',interface='cn.wangdm.test'"

pub add_handle : Io ℤ
add_handle = do perform (printf "dbus_add_handle\n"); ret (pos 1)

pub remove_handle : Io (Unit {0})
remove_handle = perform (printf "dbus_remove_handle\n")

pub toggled_handle : Io (Unit {0})
toggled_handle = perform (printf "dbus_toggled_handle\n")

-- What the two filters and the loop do alike with a message, after a first line.
pub show : String → ℕ → Io (Unit {0})
show first message = do
  perform (printf first)
  perform (message_get message type)
  perform (message_get message path)
  perform (message_get message interface)
  perform (message_get message member)
  perform (message_get message sender)
  perform (message_get message destination)
  perform (printf "type: %s\n")
  perform (printf "path: %s\n")
  perform (printf "interface: %s\n")
  perform (printf "member: %s\n")
  perform (printf "sender: %s\n")
  perform (printf "dest: %s\n")
  perform (printf "\n")

pub handle1 : ℕ → Io HandlerResult
unfolding show
handle1 message = do show "receive message int handler1\n" message; ret not_yet_handled

pub handle2 : ℕ → Io HandlerResult
unfolding show
handle2 message = do show "receive message int handler2\n" message; ret handled

-- The loop of `main`; `none` when the rounds run out.
pub receive_loop : ℕ → ℕ → Io (Option (Unit {0}))
receive_loop zero connection = ret none
receive_loop (suc n) connection = do
  alive ← perform (connection_read_write connection 3000)
  elim (is_zero alive) [
    | true ↦ do perform (printf "dbus_connection_read_write failed\n"); ret (some tt)
    | false ↦ do
      message ← perform (connection_pop_message connection)
      elim (is_null message) [ true ↦ ret tt | false ↦ show "receive message in loop\n" message ]
      perform (sleep 1)
      receive_loop n connection
  ]

-- The part of `main` after the connection is there and before the loop.
pub listen : ℕ → Io (Unit {0})
listen connection = do
  perform (bus_get_unique_name connection)
  perform (printf "DBus connect success, name: %s\n")
  requested ← perform (bus_request_name connection dbus_name)
  elim (eq_ℤ (pos 1) requested) [
    | false ↦ perform (printf_error "dbus_bus_request_name failed, name:%s, message:%s\n")
    | true ↦ ret tt
  ]
  perform (bus_add_match connection match_rule)
  perform (connection_add_filter connection message_handle2)
  perform (connection_add_filter connection message_handle1)
  watched ← perform (connection_set_watch_functions connection)
  elim (eq_ℤ (pos 1) watched) [
    | false ↦ perform (printf "dbus_connection_set_watch_functions failed\n")
    | true ↦ ret tt
  ]
  perform (connection_read_write_dispatch connection 0)
  ret tt

-- The part of `main` after the connection is there.
pub serve : ℕ → ℕ → Io (Option ℤ)
unfolding listen receive_loop
serve n connection = do
  listen connection
  left ← receive_loop n connection
  elim left [
    | none ↦ ret none
    | some _ ↦ do perform (connection_unref connection); ret (some (pos 0))
  ]

pub main : ℕ → Io (Option ℤ)
unfolding serve
main n = do
  perform error_init
  connection ← perform bus_get
  elim (is_null connection) [
    | true ↦ do
      perform (printf_error "Get dbus conenct failed, name:%s, message:%s\n")
      perform error_free
      ret (some (pos 0))
    | false ↦ serve n connection
  ]
