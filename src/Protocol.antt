-- ===== src/Protocol.antt =====
-- The framing layer, src/protocol and include/protocol.
pub mod Framer
