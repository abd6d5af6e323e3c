-- ===== src/Programs.antt =====
-- The functions `main` of hello-websocket-cpp/server/ws_server.cpp and client/ws_client.cpp.
pub mod Port
pub mod Main
mod Examples
