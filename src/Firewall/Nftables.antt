-- ===== src/Firewall/Nftables.antt =====
-- internal/firewall/nftables: the backend that renders a desired state for nft and reads it back.
pub mod Render
pub mod Parse
pub mod Listing
pub mod Driver
pub mod Guarded
pub mod Probe
pub mod Tests
