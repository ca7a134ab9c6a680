-- ===== src/Api.antt =====
-- internal/api/api.go: who gets through to the handlers, the secrets of a configuration, pages, and
-- the handlers that change something.
pub mod Secrets
pub mod Limiter
pub mod Level
pub mod Budget
pub mod Access
pub mod Handlers
pub mod Editing
pub mod Reading
pub mod Counting
pub mod Tests
