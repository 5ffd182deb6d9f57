-- ===== src/Agent.antt =====
-- cmd/agent/main.go: the start, the loops that the agent runs, and its commands, one module for each.
pub mod Heartbeat
pub mod Metrics
pub mod LogUpload
pub mod Recovery
pub mod Skills
pub mod Startup
pub mod Runtime
pub mod Shutdown
pub mod PairingCode
mod Examples
