-- ===== src/Codec/Message.antt =====
-- `Message`, its `encode`, and `decodeMessage`.
mod Defs
mod Encode
mod Decode
unfoldable pub use Defs.*
unfoldable pub use Encode.*
unfoldable pub use Decode.*
