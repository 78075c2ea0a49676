-- ===== src/App.antt =====
-- internal/app: the status of the core, the gateway connector, the recovery and the runtime control.
pub mod Status
pub mod Gateway
pub mod Recovery
pub mod Control
pub mod Config
