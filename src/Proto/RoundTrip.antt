-- ===== src/Proto/RoundTrip.antt =====
-- What a client reads is what the encoder was given.
pub mod Plain
pub mod Objects
pub mod Hdata
pub mod Messages
pub mod Created
pub mod Sent
pub mod Nicks
