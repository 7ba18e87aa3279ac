-- ===== src/Backend.antt =====
-- pkg/network/backend: bridges, veth pairs and VXLAN devices.
pub mod Bridge
pub mod Veth
pub mod Vxlan
