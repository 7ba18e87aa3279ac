-- ===== src/Cni.antt =====
-- cmd/tenantcni/main.go: the plugin.
pub mod Attach
pub mod Add
pub mod Del
pub mod Check
pub mod Tenants
pub mod Args
pub mod Commands
pub mod PodName
pub mod PodTenant
pub mod PodEntries
pub mod DelPod
