-- ===== src/Weechat.antt =====
-- internal/weechat: the server of the relay protocol.
pub mod Command
pub mod Session
pub mod Parsing
pub mod Gate
pub mod Requests
pub mod Server
pub mod Broadcast
pub mod Clients
pub mod Peers
pub mod Listening
pub mod Examples
