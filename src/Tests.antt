-- ===== src/Tests.antt =====
-- Runs of the code on small inputs, and the theorems at inputs that meet their hypotheses.
pub mod Samples
pub mod Memory
pub mod Snapshots
pub mod Upsert
pub mod Window
pub mod Telemetry
pub mod Usages
pub mod Handler
pub mod Determined
pub mod Hours
pub mod Agent
pub mod Visible
pub mod Metrics
pub mod Loop
pub mod Config
pub mod Command
pub mod Standalone
pub mod Serve
pub mod Races
pub mod Pipeline
pub mod Shown
