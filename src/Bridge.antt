-- ===== src/Bridge.antt =====
-- internal/bridge: what the bridge does on a message from erssi and on a command of a client.
pub mod State
pub mod Request
pub mod Handlers
pub mod Events
pub mod Runs
pub mod Asked
pub mod Dumps
pub mod Safety
pub mod BufferList
pub mod Lines
pub mod Shown
pub mod Topics
pub mod Made
pub mod ReadBack
pub mod Carried
pub mod Answers
pub mod Framed
pub mod LineRequests
pub mod Counts
pub mod Lifecycle
pub mod Calls
pub mod Sessions
pub mod Restarts
pub mod Examples
mod LifeExamples
