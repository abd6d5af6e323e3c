-- ===== src/Codec.antt =====
-- hello-websocket-cpp/common/codec.hpp: the binary protocol of PROTOCOL.md.
pub mod Constants
pub mod Outcome
pub mod KvMap
pub mod Writer
pub mod Utf8
pub mod Reader
pub mod Frame
pub mod Message
pub mod Clock
pub mod Wire
mod Examples
