-- ===== src/Firewall.antt =====
-- The perimeter firewall, components/firewall-perimeter/src: one child module for each file.
pub mod Net
pub mod Packet
pub mod Config
pub mod Conntrack
pub mod Threshold
pub mod RateLimit
pub mod LogGate
pub mod Engine
pub mod Chan
pub mod Quarantine
pub mod Nfqueue
