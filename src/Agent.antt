-- ===== src/Agent.antt =====
-- agent/internal: what an agent collects in its cluster, and how it is sent.
pub mod Kube
pub mod Snapshot
pub mod Dcgm
pub mod Telemetry
pub mod Loop
pub mod Config
pub mod Command
