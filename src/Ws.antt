-- ===== src/Ws.antt =====
-- internal/ws: what sockets, messages and sealed frames the daemon accepts.
pub mod Pending
pub mod RateLimit
pub mod Session
pub mod Client
pub mod Message
pub mod Hub
pub mod Handshake
mod Examples
