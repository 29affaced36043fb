-- ===== src/Proto.antt =====
-- pkg/weechatproto: the WeeChat relay objects and their binary encoding.
pub mod Types
pub mod Encode
pub mod Encoder
pub mod Sending
pub mod Frames
pub mod Typed
pub mod Stream
pub mod Reliable
pub mod Create
pub mod Wire
pub mod WireMessage
pub mod RoundTrip
mod Tests
pub mod Examples
