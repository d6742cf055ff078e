-- ===== src/Protocol.antt =====
-- rpyc_async/core/protocol.py: the connection.
pub mod Attributes
pub mod Objects
pub mod Boxing
pub mod Deletions
pub mod Link
pub mod Dispatch
pub mod Results
pub mod Awaits
pub mod Sending
pub mod Bound
pub mod Serving
pub mod AsyncHandlers
pub mod Cleanup
pub mod Lifecycle
pub mod Requests
pub mod Handlers
