-- ===== src/Colls.antt =====
-- rpyc_async/lib/colls.py: the collection that counts references to the objects that a peer holds.
pub mod Counting
pub mod Balance
