-- ===== src/Firewall.antt =====
-- internal/firewall: the state that a firewall is asked for, its backends and their controller.
pub mod Address
pub mod Backend
pub mod Contract
pub mod Registry
pub mod Controller
pub mod Nftables
pub mod Iptables
pub mod Tests
