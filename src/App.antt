-- ===== src/App.antt =====
-- internal/app: the application that connects the subsystems.
pub mod Compare
pub mod Configuration
pub mod Reload
pub mod Again
pub mod Sample
pub mod Alarms
pub mod New
pub mod Observers
pub mod Run
pub mod Tests
