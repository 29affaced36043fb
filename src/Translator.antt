-- ===== src/Translator.antt =====
-- internal/translator: the buffers that the bridge keeps, and the conversion of messages.
pub mod State
pub mod Buffers
pub mod Views
pub mod Dump
pub mod Listed
pub mod Order
pub mod Changes
pub mod Identity
pub mod Readings
pub mod Lookup
pub mod History
pub mod Kept
pub mod Titles
pub mod Stable
pub mod Examples
