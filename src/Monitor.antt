-- ===== src/Monitor.antt =====
-- internal/monitor: what the sensors make of the readings of the hardware.
pub mod Alerting
pub mod Manager
pub mod Poll
pub mod Activity
pub mod Motion
mod Examples
