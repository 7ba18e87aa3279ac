-- ===== src/System.antt =====
-- The daemon and the plugin on one node, which share the stores' files: what holds whatever each of them
-- does, in any order.
pub mod Served
pub mod Serves
pub mod Invariant
pub mod Opening
pub mod Plugin
pub mod Update
pub mod Stores
pub mod Add
pub mod Delete
pub mod Start
pub mod Events
pub mod Exclusive
pub mod Prepared
pub mod Added
pub mod Deleted
pub mod Lifetime
pub mod FirstPod
pub mod NodeSubnets
pub mod NodesKept
pub mod Changes
