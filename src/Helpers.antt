-- ===== src/Helpers.antt =====
-- rpyc_async/utils/helpers.py: wrappers over a connection.
pub mod Buffer
pub mod Background
pub mod Proxies
