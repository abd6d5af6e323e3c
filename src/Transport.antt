-- ===== src/Transport.antt =====
-- The WebSocket transport of hello-websocket-cpp/common/ws.hpp.
pub mod Socket
pub mod Frame
pub mod Receive
pub mod Http
pub mod Sha1
pub mod Base64
mod Examples
