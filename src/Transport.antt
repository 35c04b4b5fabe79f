-- ===== src/Transport.antt =====
-- transport: the registry of transports and the in-process transport.
pub mod Channel
pub mod Inproc
pub mod Schemes
pub mod Conn
pub mod Tcp
pub mod Ipc
pub mod Contract
pub mod Ws
