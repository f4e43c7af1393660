-- ===== src/Server.antt =====
-- server/internal/server: the two query services and the worker service.
pub mod Window
pub mod Buckets
pub mod Tally
pub mod Codec
pub mod Auth
pub mod Gather
pub mod Snapshots
pub mod Usages
pub mod Telemetry
pub mod Config
pub mod Visible
pub mod Shell
pub mod Command
