-- ===== src/System.antt =====
-- The bridge, its clients and its connection to erssi together, with the goroutines in between.
pub mod State
pub mod Steps
pub mod Privacy
pub mod Isolation
pub mod Reachable
pub mod Whole
pub mod Panics
pub mod Modest
pub mod Arrival
pub mod Replies
pub mod Draining
pub mod Runs
pub mod Traces
pub mod Conserved
pub mod Later
pub mod Overtaking
pub mod Hurried
pub mod Typing
pub mod Examples
mod ArrivalExamples
mod LaterExamples
