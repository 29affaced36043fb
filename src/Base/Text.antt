-- ===== src/Base/Text.antt =====
-- What the program uses of Go's strings and fmt packages, over byte strings.
mod Compare
mod Number
mod Split
mod Fields
mod Words
mod Case
unfoldable pub use Compare.*
unfoldable pub use Number.*
unfoldable pub use Split.*
unfoldable pub use Fields.*
pub use Words.*
unfoldable pub use Case.*
