-- ===== src/Alerts.antt =====
-- internal/alerts: the retries of a delivery, the registry of transports and the manager of alerts.
pub mod Service
pub mod Retry
pub mod Attempts
pub mod Manager
pub mod Dispatch
pub mod Bounds
pub mod Ignored
pub mod Tests
