-- ===== src/Protocol.antt =====
-- The messages over TCP and their handlers (edge_protocol.py).
pub mod Frames
pub mod Node
