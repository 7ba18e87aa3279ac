-- ===== src/Controller.antt =====
-- pkg/controller: the reaction to the tenants and pods that the API server announces.
pub mod Events
pub mod Delete
pub mod Add
pub mod Update
pub mod Loop
pub mod Wiring
pub mod Membership
pub mod Subnets
pub mod Isolation
pub mod Release
pub mod Restore
pub mod Conserves
