-- ===== src/Config.antt =====
-- internal/config: the configuration and its checks, and the manager of its revisions.
pub mod Ip
pub mod Settings
pub mod Runnable
pub mod Yaml
pub mod Manager
pub mod Revisions
pub mod Restore
pub mod Tests
