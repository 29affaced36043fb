-- ===== src/Erssi.antt =====
-- pkg/erssiproto and internal/erssi: the messages of erssi's fe-web module and its client.
pub mod Types
pub mod Crypto
pub mod Decryption
pub mod Client
pub mod Delivery
mod Examples
