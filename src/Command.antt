-- ===== src/Command.antt =====
-- internal/command: the executor of commands and the consumer that feeds it.
pub mod Json
pub mod Reply
pub mod Host
pub mod Cli
pub mod Service
pub mod ConfigFile
pub mod Message
pub mod Executor
pub mod Consumer
mod Examples
