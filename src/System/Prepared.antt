-- ===== src/System/Prepared.antt =====
-- A tenant's store that is there: the first data that is written into it, and its opening.
use mathlib.Core.Path.{subst}
use tenant_cni.Base.{Text, ap, arith, refl, text_dec, ◌∙◌, ◌≡◌}
use tenant_cni.Cni.Tenants.{HoldsTenant, Keeps, open_tenant_there}
use tenant_cni.Host.{crash}
use tenant_cni.Ipam.Address.{new_tenant_ipam}
use tenant_cni.Ipam.Provision.{IsPrepared}
use tenant_cni.Ipam.Store.{Disk, make_directory, new_file_lock}
use tenant_cni.Ipam.Tenant.Records.{IsWritable, written_disk}
use tenant_cni.Ipam.Types.{TenantData}
use tenant_cni.Machine.{Machine, open_tenant, put_self, save_tenant}
use tenant_cni.System.Opening.{crash-GivesUp, open_tenant_other}

pub prepared-IsWritable : (d : Disk TenantData) → IsPrepared d → IsWritable d
unfolding make_directory
prepared-IsWritable d p = record {
  makes_directory = ground (arith, p.there);
  openable = p.openable;
  writable = p.writable;
}

-- A tenant's disk that is prepared, once its first data has been written.
pub written-HoldsTenant :
    (name : Text) (d : Disk TenantData) (t : TenantData)
    → IsPrepared d
    → HoldsTenant name (written_disk t d) t
unfolding make_directory new_file_lock
written-HoldsTenant name d t p = record {
  there = ground (arith, p.there);
  lockable = ground (arith, p.there, p.lockable);
  openable = ground (arith, p.there, p.openable);
  writable = ground (arith, p.there, p.writable);
  file = refl;
}

module _ {W : Type 0} where
  -- The opening of a tenant's store leaves the nodes' files alone.
  pub open_tenant-Keeps_nodes :
      (name : Text) → Keeps (λ m. m.node_disks) (open_tenant {W = W} (λ _. crash) name)
  unfolding open_tenant save_tenant new_tenant_ipam
  open_tenant-Keeps_nodes name m = ground arith

  -- A tenant's file that holds data is left as it is when a tenant's store is opened.
  pub open_tenant-disk :
      (owner name : Text) (x : TenantData) (m : Machine W)
      → HoldsTenant name (m.tenant_disks name) x
      → (open_tenant {W = W} (λ _. crash) owner m).1.tenant_disks name ≡ m.tenant_disks name
  unfolding save_tenant
  open_tenant-disk owner name x m h = elim (text_dec name owner) [
    | no apart ↦ open_tenant_other name (λ _. crash) owner m crash-GivesUp apart
    | yes same ↦
        subst
          (λ z. (open_tenant {W = W} (λ _. crash) z m).1.tenant_disks name ≡ m.tenant_disks name)
          same
          (ap (λ z. z.1.tenant_disks name) (open_tenant_there (λ _. crash) name x m h)
            ∙ put_self name (m.tenant_disks name) m.tenant_disks)
  ]
