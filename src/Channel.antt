-- ===== src/Channel.antt =====
-- rpyc_async/core/channel.py: packets of data over a byte stream, and `_extract_frames` of
-- rpyc_async/core/protocol.py, which reads the same packets from a buffer that grows.
pub mod Packets
pub mod Frames
