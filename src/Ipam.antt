-- ===== src/Ipam.antt =====
-- pkg/network/ipam: the stores of a node, its tenants and its pods, and the allocation of subnets
-- and addresses from them.
pub mod Types
pub mod Store
pub mod NodeStore
pub mod TenantStore
pub mod PodStore
pub mod Hardware
pub mod Tenant
pub mod Leases
pub mod Address
pub mod Provision
pub mod Serving
pub mod Removal
