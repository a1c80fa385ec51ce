-- ===== src/Network.antt =====
-- The connections and the event loop, src/network and include/network.
pub mod Connection
pub mod EventLoop
pub mod Worker
pub mod ReadTask
pub mod WriteTask
pub mod Server
pub mod TcpServer
