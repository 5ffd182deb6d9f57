-- ===== src/Transport.antt =====
-- internal/transport: how a broker makes a command of a message, and what it publishes. The
-- libraries of MQTT and Redis answer by records of the results.
pub mod Receive
pub mod Publish
pub mod Agreement
pub mod Connection
pub mod Channel
pub mod Session
mod Examples
