-- ===== src/Logs.antt =====
-- internal/logger and internal/audit: files of JSON lines, their queries and the rotation of logs.
pub mod Scan
pub mod Strings
pub mod Manager
pub mod Query
pub mod Rotation
pub mod Archives
pub mod RoundTrip
pub mod Audit
pub mod Trail
pub mod Samples
pub mod Tests
