-- ===== src/Controller/Restore.antt =====
-- What an update may not change, and what goes back to the API server where it did.
use tenant_cni.Api.{Tenant}
use tenant_cni.Base.{Text, arith, false, refl, some, sym, ◌↔◌, ◌≡◌}
use tenant_cni.Controller.Events.{Client, restored}
use tenant_cni.Controller.Update.{illegal_change}
use tenant_cni.Ipam.Tenant.{tenant_data_of}
use tenant_cni.Ipam.Types.{TenantData, Vxlan}
use tenant_cni.Net.Addr.{Ipv6Text, Prefix}

illegal_change-of_equal :
    (new old : Tenant)
    → new.spec.subnet_prefix ≡ old.spec.subnet_prefix
    → new.spec.vni ≡ old.spec.vni
    → new.object_name ≡ old.object_name
    → new.spec.name ≡ old.spec.name
    → illegal_change new old ≡ false
illegal_change-of_equal new old a b c d = ground (arith, a, b, c, d)

equal_of_illegal_change :
    (new old : Tenant)
    → illegal_change new old ≡ false
    → (new.spec.subnet_prefix ≡ old.spec.subnet_prefix)
      × (new.spec.vni ≡ old.spec.vni)
      × (new.object_name ≡ old.object_name)
      × (new.spec.name ≡ old.spec.name)
equal_of_illegal_change new old h =
    (ground (arith, h), ground (arith, h), ground (arith, h), ground (arith, h))

module _ {W : Type 0} (c : Client W) (v6 : Ipv6Text) (cidr : Prefix) (mac : Text)
    (base : TenantData) where
  -- For a tenant whose object and specification have one name, and whose data on file is what
  -- `AllocateTenant` made of it: of any changed tenant, the copy that `UpdateTenantResource` sends is a
  -- legal update of the old one exactly where the specification's name was not changed. The prefix, the
  -- VNI and the object's name are restored, and a changed name of the specification stays.
  pub restored_iff :
      (new old : Tenant) (vxlan : Vxlan)
      → old.object_name ≡ old.spec.name
      → (tenant_data_of v6 old.spec.name old.spec.vni old.spec.subnet_prefix cidr mac base).vxlan
        ≡ some vxlan
      → let on_file =
          tenant_data_of v6 old.spec.name old.spec.vni old.spec.subnet_prefix cidr mac base in
        (illegal_change (restored c new on_file vxlan) old ≡ false)
        ↔ (new.spec.name ≡ old.spec.name)
  unfolding tenant_data_of
  restored_iff new old vxlan same_name device =
      let on_file =
        tenant_data_of v6 old.spec.name old.spec.vni old.spec.subnet_prefix cidr mac base in
      let sent = restored c new on_file vxlan in
      let vni : vxlan.vni ≡ old.spec.vni = ground (arith, device) in
      (
        λ h. (equal_of_illegal_change sent old h).3,
        λ e. illegal_change-of_equal sent old refl vni (sym same_name) e,
      )
