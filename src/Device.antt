-- ===== src/Device.antt =====
-- internal/device: what the agent knows of its device, and the files that hold its id and its key.
pub mod Store
pub mod Info
