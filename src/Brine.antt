-- ===== src/Brine.antt =====
-- rpyc_async/core/brine.py: the serializer for immutable values.
pub mod Syntax
pub mod Dump
pub mod Load
pub mod RoundTrip
pub mod Total
pub mod Dumpable
