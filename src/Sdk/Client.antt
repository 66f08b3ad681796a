-- ===== src/Sdk/Client.antt =====
-- totoggle_go/client.go: the client. Its children model the evaluation of a toggle, the refresh of
-- the catalog, the delays between refreshes, and the lifecycle with its interleavings.
pub mod Evaluate
pub mod Cascade
pub mod Refresh
pub mod Health
pub mod Backoff
pub mod Lifecycle
mod Tests
