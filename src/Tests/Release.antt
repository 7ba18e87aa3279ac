-- ===== src/Tests/Release.antt =====
-- A tenant's restored fields and its JSON form, and a node's store on disk.
use tenant_cni.Api.{Tenant}
use tenant_cni.Base.{[], arith, bytes, false, refl, some, ◌++◌, ◌↔◌, ◌∷◌, ◌≡◌}
use tenant_cni.Controller.Events.{restored}
use tenant_cni.Controller.Restore.{restored_iff}
use tenant_cni.Controller.Update.{illegal_change}
use tenant_cni.Ipam.Store.{holds, json, new_file_lock}
use tenant_cni.Ipam.Tenant.{tenant_data_of}
use tenant_cni.Ipam.Tenant.OnDisk.{Holds}
use tenant_cni.Ipam.TenantStore.{empty_tenant}
use tenant_cni.Ipam.Types.{TenantData, Vxlan}
use tenant_cni.Net.Addr.{addr_text, ipv4, prefix}
use tenant_cni.Net.Decimal.{decimal_int, pos}
use tenant_cni.Tests.{good_disk, no_ipv6_text}
use tenant_cni.Tests.Controller.{client, tenant_on}
use tenant_cni.Tests.Tenant.{two_subnets}

abbrev red_tenant : Tenant
red_tenant = tenant_on []

pub two-Holds : Holds (bytes "n1") (good_disk (holds (json two_subnets))) two_subnets
unfolding new_file_lock
two-Holds = record {
  there = λ e. absurd (ground (arith, e));
  lockable = refl;
  openable = refl;
  writable = refl;
  file = refl;
}

abbrev renamed : Tenant
renamed = record {
  object_name = bytes "blue";
  spec = record { name = bytes "red"; vni = pos 8; subnet_prefix = pos 25; nodes = [] };
}

abbrev red_device : Vxlan
red_device = record {
  vtep_name = bytes "red" ++ (b'.' ∷ decimal_int (pos 7));
  vtep_ip = addr_text no_ipv6_text (ipv4 184811520);
  vtep_mac = [];
  vni = pos 7;
}

abbrev red_file : TenantData
red_file =
    tenant_data_of no_ipv6_text (bytes "red") (pos 7) (pos 24) (prefix (ipv4 184811520) 24) []
      empty_tenant

has_device : red_file.vxlan ≡ some red_device
unfolding tenant_data_of
has_device = refl

restored_iff_example :
    (illegal_change (restored client renamed red_file red_device) red_tenant ≡ false)
    ↔ (bytes "red" ≡ bytes "red")
restored_iff_example =
    restored_iff client no_ipv6_text (prefix (ipv4 184811520) 24) [] empty_tenant renamed red_tenant
      red_device refl has_device
