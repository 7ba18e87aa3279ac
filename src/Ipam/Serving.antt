-- ===== src/Ipam/Serving.antt =====
-- The plugin's calls on the file that the daemon has written.
use mathlib.Core.Path.{subst}
use tenant_cni.Base.{List, Result, Text, [], arith, none, ok, refl, returns, sym, ℕ, ◌<◌, ◌≡◌}
use tenant_cni.Ipam.Address.Consistency.{IsIpv4Subnet}
use tenant_cni.Ipam.Address.Exclusive.{Calls, Calls-IsExclusive}
use tenant_cni.Ipam.Address.Laws.{IsReady}
use tenant_cni.Ipam.Address.Refinement.{IsAddressOf, IsServing}
use tenant_cni.Ipam.Address.View.{leases}
use tenant_cni.Ipam.Leases.{IsExclusive}
use tenant_cni.Ipam.NodeStore.{default_store_dir}
use tenant_cni.Ipam.Provision.{
  IsPrepared, fresh-cidr, fresh_tenant, opens_there, provisioned, provisioned-IsReady,
  write_tenant_prepared,
}
use tenant_cni.Ipam.Store.{Disk, holds, json}
use tenant_cni.Ipam.Tenant.{tenant_data_of, vtep_mac_text, write_tenant}
use tenant_cni.Ipam.TenantStore.{TenantStore, new_tenant_store}
use tenant_cni.Ipam.Types.{TenantData}
use tenant_cni.Net.Addr.{Ipv6Text, ipv4, prefix, prefix_text}
use tenant_cni.Net.ByteNetwork.{network24, network24_bytes}
use tenant_cni.Net.Decimal.{ℤ}
use tenant_cni.Net.Ip.{Ip, as16}
use tenant_cni.Net.RoundTrip.{IsBytes}

pub fresh-IsIpv4Subnet :
    (v6 : Ipv6Text) (name mac : Text) (vni bits : ℤ) (v : ℕ)
    → v < 4294967296
    → IsIpv4Subnet v6 (fresh_tenant v6 name mac vni bits v)
fresh-IsIpv4Subnet v6 name mac vni bits v small = record {
  address = as16 (ipv4 v);
  net = network24 v;
  reads = fresh-cidr v6 name mac vni bits v small;
  four = rw (network24_bytes v) refl;
}

pub fresh-ips :
    (v6 : Ipv6Text) (name mac : Text) (vni bits : ℤ) (v : ℕ)
    → let t = fresh_tenant v6 name mac vni bits v in t.ips ≡ []
unfolding tenant_data_of
fresh-ips v6 name mac vni bits v = refl

provisioned-IsServing :
    (v6 : Ipv6Text) (name mac : Text) (vni bits : ℤ) (v : ℕ) (disk : Disk TenantData)
    → v < 4294967296
    → IsPrepared disk
    → IsServing v6
        (prefix_text v6 (prefix (ipv4 v) 24))
        (fresh_tenant v6 name mac vni bits v)
        (provisioned name (fresh_tenant v6 name mac vni bits v) disk)
unfolding tenant_data_of
provisioned-IsServing v6 name mac vni bits v disk small p = record {
  ready = provisioned-IsReady name (fresh_tenant v6 name mac vni bits v) disk p;
  consistent = record { keys_once = tt; ids_once = tt; readable = tt };
  subnet = fresh-IsIpv4Subnet v6 name mac vni bits v small;
  same_cidr = refl;
}

-- From the daemon's file to the plugin's calls: where `AllocateTenant` writes a tenant's file for an IPv4
-- subnet of 24 bits, on a disk whose directory and lock are there and that can be written, and where the
-- plugin opens that file: after any calls of `AllocateIP`, `ReleaseIP` and `CheckIP`, with a `NextIP` that
-- gives bytes, no two containers have one address, and every address that a container has is one of the
-- subnet's.
pub IsExclusive-write_tenant :
    (v6 : Ipv6Text) (next_ip : Ip → Ip) (bytes_next : (ip : Ip) → IsBytes (next_ip ip))
    (name : Text) (vni bits : ℤ) (v : ℕ) (rand : Result (List ℕ)) (disk written : Disk TenantData)
    (s s' : TenantStore)
    → v < 4294967296
    → IsPrepared disk
    → write_tenant v6 name vni bits (prefix (ipv4 v) 24) rand disk ≡ (returns none, written)
    → (new_tenant_store default_store_dir name written).0 ≡ ok s
    → Calls v6 next_ip s s'
    → (t' : TenantData) × IsReady t' s'
      × IsExclusive (IsAddressOf v6 (prefix_text v6 (prefix (ipv4 v) 24))) (leases t')
IsExclusive-write_tenant v6 next_ip bytes_next name vni bits v rand disk written s s' small p writes
      opens calls =
    let cidr = prefix_text v6 (prefix (ipv4 v) 24) in
    let t = fresh_tenant v6 name (vtep_mac_text rand) vni bits v in
    let wrote : written ≡ record disk { file = holds (json t) } =
      ground
        (arith, write_tenant_prepared v6 name vni bits (prefix (ipv4 v) 24) rand disk p, writes) in
    let there : s ≡ provisioned name t disk =
      ground (arith, opens_there name t disk p, wrote, opens) in
    let serving =
      subst (IsServing v6 cidr t) (sym there)
        (provisioned-IsServing v6 name (vtep_mac_text rand) vni bits v disk small p) in
    Calls-IsExclusive v6 next_ip bytes_next cidr t s s' serving
      (fresh-ips v6 name (vtep_mac_text rand) vni bits v) calls
