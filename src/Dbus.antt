-- ===== src/Dbus.antt =====
-- The programs of dbus/.
pub mod Bus
pub mod Sender
pub mod Receiver
