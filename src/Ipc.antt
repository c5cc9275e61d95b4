-- ===== src/Ipc.antt =====
-- The programs of ipc/: local sockets, message queues, semaphores.
pub mod SockClient
pub mod SockServer
pub mod MqProducer
pub mod MqConsumer
pub mod Semaphore
pub mod Delivery
