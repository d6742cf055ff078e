-- ===== src/Registry.antt =====
-- rpyc_async/utils/registry.py: the server at which services register, and its clients.
pub mod Server
pub mod Contents
pub mod Sorted
pub mod Removal
pub mod Query
pub mod Unregister
pub mod Spec
pub mod Tracking
pub mod Refinement
pub mod Wire
pub mod Exchange
