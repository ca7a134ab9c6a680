-- ===== src/Storage.antt =====
-- internal/storage/storage.go, with the managers of internal/blacklist/blacklist.go and
-- internal/whitelist/whitelist.go: two sets of addresses in memory, and their snapshot in a file.
pub mod File
pub mod State
pub mod Invariant
pub mod Commit
pub mod Restart
pub mod Fault
pub mod Tests
