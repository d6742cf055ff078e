-- ===== src/Stream.antt =====
-- `SocketStream` of rpyc_async/core/stream.py: exact reads and whole writes over a socket.
pub mod Socket
pub mod Transfer
