-- ===== src/Routing.antt =====
-- pkg/network/routing: firewall rules, ARP and FDB entries, routes.
pub mod Rules
pub mod Routes
