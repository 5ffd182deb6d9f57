-- ===== src/Collector.antt =====
-- internal/collector/openclaw.go: what the agent reports of the OpenClaw installation. It reads the
-- output of the openclaw CLI.
pub mod Words
pub mod Table
pub mod Cells
pub mod Agents
pub mod Sessions
pub mod Fingerprint
pub mod Env
pub mod Extras
pub mod Diagnosis
pub mod Status
pub mod Info
pub mod Skills
pub mod Metrics
mod Examples
