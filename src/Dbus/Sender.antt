-- ===== src/Dbus/Sender.antt =====
-- dbus/sender.c: it sends a signal and a method call.
pub mod Sending
pub mod Mailing
use linux_tutorial.Prelude.{ℕ, true, false, String}
use linux_tutorial.Prelude.Int.{ℤ, pos}
use linux_tutorial.Prog.{ret, ◌>>=◌, ◌>>◌}
use linux_tutorial.Platform.{is_zero, is_null, eq_ℤ}
use linux_tutorial.Dbus.Bus.{
  Arg, int32, string, error_init, error_free, bus_get, bus_get_unique_name, bus_request_name,
  connection_send, connection_flush, connection_unref, message_new_signal, message_new_method_call,
  message_iter_init_append, message_iter_append_basic, message_unref, printf, printf_error, Io,
  perform,
}

abbrev pub dbus_name : String
dbus_name = "cn.wangdm.sender"

abbrev pub dbus_path : String
dbus_path = "/cn/wangdm/test"

abbrev pub dbus_iface : String
dbus_iface = "cn.wangdm.test"

-- An argument is added; a failure is printed.
pub append : ℕ → Arg → Io (Unit {0})
append msg arg = do
  appended ← perform (message_iter_append_basic msg arg)
  elim (is_zero appended) [
    | true ↦ perform (printf "dbus_message_iter_append_basic failed\n")
    | false ↦ ret tt
  ]

-- A message is sent; a failure is printed.
pub send : ℕ → ℕ → Io (Unit {0})
send connection msg = do
  sent ← perform (connection_send connection msg)
  elim (eq_ℤ (pos 1) sent) [ false ↦ perform (printf "DBus send failed\n") | true ↦ ret tt ]

pub send_signal : ℕ → Io (Unit {0})
unfolding append send
send_signal connection = do
  signal_msg ← perform (message_new_signal dbus_path dbus_iface "test")
  elim (is_null signal_msg) [
    | true ↦ ret tt
    | false ↦ do
      perform (message_iter_init_append signal_msg)
      append signal_msg (int32 10)
      send connection signal_msg
      perform (message_unref signal_msg)
  ]

pub send_method_call : ℕ → Io (Unit {0})
unfolding append send
send_method_call connection = do
  method_msg ← perform (message_new_method_call dbus_iface dbus_path dbus_iface "test")
  elim (is_null method_msg) [
    | true ↦ ret tt
    | false ↦ do
      perform (message_iter_init_append method_msg)
      append method_msg (int32 1989)
      append method_msg (string "Hello")
      send connection method_msg
  ]

-- The part of `main` after the connection is there.
pub talk : ℕ → Io ℤ
unfolding send_signal send_method_call
talk connection = do
  perform (bus_get_unique_name connection)
  perform (printf "DBus connect success, name: %s\n")
  requested ← perform (bus_request_name connection dbus_name)
  elim (eq_ℤ (pos 1) requested) [
    | false ↦ perform (printf_error "dbus_bus_request_name failed, name:%s, message:%s\n")
    | true ↦ ret tt
  ]
  send_signal connection
  send_method_call connection
  perform (connection_flush connection)
  perform (connection_unref connection)
  ret (pos 0)

pub main : Io ℤ
unfolding talk
main = do
  perform error_init
  connection ← perform bus_get
  elim (is_null connection) [
    | true ↦ do
      perform (printf_error "Get dbus conenct failed, name:%s, message:%s\n")
      perform error_free
      ret (pos 0)
    | false ↦ talk connection
  ]
