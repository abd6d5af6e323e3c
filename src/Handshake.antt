-- ===== src/Handshake.antt =====
-- The HTTP handshake of hello-websocket-cpp/common/ws.hpp.
pub mod Header
pub mod Accept
pub mod Connect
pub mod Agree
pub mod Handles
pub mod Examples
