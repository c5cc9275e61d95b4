-- ===== src/Libuv.antt =====
-- The programs of libuv/.
pub mod Uv
pub mod TcpClient
pub mod TcpServer
