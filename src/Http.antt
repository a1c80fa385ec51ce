-- ===== src/Http.antt =====
-- The HTTP layer, src/Http and include/Http.
pub mod Numbers
pub mod Headers
pub mod Request
pub mod RequestLines
pub mod ChunkSize
pub mod Parser
pub mod Response
pub mod Encoder
pub mod Router
pub mod ChunkedBody
pub mod Client
pub mod Message
