-- ===== src/Servers.antt =====
-- rpyc_async/utils/server.py: the servers.
pub mod Pool
pub mod Sockets
