-- ===== src/Codec.antt =====
-- What the serializer takes from Python's standard library: `struct` at the four formats that
-- rpyc_async/core/brine.py names, UTF-8, and the decimal text of integers.
pub mod Words
pub mod Utf8
pub mod Decimal
