-- ===== src/Session.antt =====
-- The two programs: hello-websocket-cpp/server/ws_server.cpp and client/ws_client.cpp.
pub mod Round
pub mod Server
pub mod Client
pub mod Heartbeat
pub mod Exchange
mod Examples
