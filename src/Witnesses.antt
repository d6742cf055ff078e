-- ===== src/Witnesses.antt =====
-- Runs of the definitions on concrete data, and the theorems at inputs that meet their hypotheses.
mod Brine
mod Channel
mod Stream
mod Colls
mod Protocol
mod Dispatch
mod Results
mod Registry
mod Lifecycle
mod Requests
mod Vinegar
mod Handlers
mod Netref
mod Awaits
mod Sending
mod Bound
mod Servers
mod Helpers
mod Service
mod AsyncHandlers
mod Serving
mod Proxies
