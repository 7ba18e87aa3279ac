-- ===== src/Routing/Rules.antt =====
-- pkg/network/routing/iptables.go
pub mod Isolation
pub mod Tenants
use tenant_cni.Base.{List, Text, [], bytes, none, some, ◌∷◌}
use tenant_cni.Host.{Cmd, ◌>>◌}
use tenant_cni.Host.Iptables.{Iptables, Rule, accept, drop_packet}

abbrev pub forward_bridge : Text → Rule
forward_bridge bridge = record {
  in_interface = some bridge;
  source = none;
  destination = none;
  target = accept;
}

abbrev pub forward_from : Text → Rule
forward_from cidr = record {
  in_interface = none;
  source = some cidr;
  destination = none;
  target = accept;
}

abbrev pub forward_to : Text → Rule
forward_to cidr = record {
  in_interface = none;
  source = none;
  destination = some cidr;
  target = accept;
}

abbrev pub block_rule : Text → Text → Rule
block_rule from to = record {
  in_interface = none;
  source = some from;
  destination = some to;
  target = drop_packet;
}

-- `EnableIPForwarding`. `run` runs a command line; the text that is put in front of its error is left out.
unfoldable pub enable_ip_forwarding :
    {W : Type 0} → (List Text → Cmd W (Unit {0})) → Cmd W (Unit {0})
enable_ip_forwarding run = run (bytes "sysctl" ∷ bytes "-w" ∷ bytes "net.ipv4.ip_forward=1" ∷ [])

module _ {W : Type 0} (t : Iptables W) where
  -- `AllowBridgeForward`
  unfoldable pub allow_bridge_forward : Text → Cmd W (Unit {0})
  allow_bridge_forward bridge = do t.new_iptables; t.append_unique (forward_bridge bridge)

  -- `AllowForwardingTenant`
  unfoldable pub allow_forwarding_tenant : Text → Cmd W (Unit {0})
  allow_forwarding_tenant cidr = do
    t.new_iptables
    t.append_unique (forward_from cidr)
    t.append_unique (forward_to cidr)

  -- `BlockTenant2TenantTraffic`
  unfoldable pub block_tenant_to_tenant_traffic : Text → Text → Cmd W (Unit {0})
  block_tenant_to_tenant_traffic one other = do
    t.new_iptables
    t.insert_unique 1 (block_rule one other)
    t.insert_unique 1 (block_rule other one)
