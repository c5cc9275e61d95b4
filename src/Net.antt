-- ===== src/Net.antt =====
-- The programs of net/: servers and clients over TCP.
pub mod TcpServer
pub mod TcpClient
pub mod TlsServer
pub mod TlsClient
pub mod Stream
