-- ===== src/Detector.antt =====
-- internal/detector: the rules of the engine (detector.go) and the daemon that samples (daemon.go).
pub mod Engine
pub mod Daemon
pub mod Lifecycle
pub mod Tests
