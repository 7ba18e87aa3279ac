-- ===== src/System/Opening.antt =====
-- The opening of a tenant's store, on a node where a tenant's file serves its pods.
use mathlib.Core.Path.{subst}
use tenant_cni.Base.{
  Error, Result-cases, Text, ap, arith, inl, inr, ok, refl, returns, sym, text_dec, ◌∙◌, ◌≡◌, ◌≢◌,
  ◌⊎◌,
}
use tenant_cni.Cni.Tenants.{open_tenant_bind, tenant_on_disk, tenant_store_of}
use tenant_cni.Host.{Cmd, crash, fail, ◌>>=◌}
use tenant_cni.Ipam.Address.{TenantIpam, new_tenant_ipam}
use tenant_cni.Ipam.NodeStore.{default_store_dir}
use tenant_cni.Ipam.Store.{Disk}
use tenant_cni.Ipam.TenantStore.{load_tenant_data, new_tenant_store}
use tenant_cni.Ipam.Types.{TenantData}
use tenant_cni.Machine.{Machine, open_tenant, put, put_self, save_tenant}
use tenant_cni.Net.Addr.{Ipv6Text}
use tenant_cni.System.Served.{IsServed, Watch}
use tenant_cni.System.Serves.{IsServedOn, Serves, bind_with, put_other}

-- A caller that cannot make the store leaves the state as it is and gets no store.
abbrev pub GivesUp : {W : Type 0} → (Error → Cmd (Machine W) TenantIpam) → Type 0
GivesUp {W} f =
    (e : Error) (m : Machine W)
    → ((f e m).1 ≡ m) × ((tim : TenantIpam) → (f e m).0 ≢ returns (ok tim))

pub fail-GivesUp : {W : Type 0} → GivesUp {W = W} fail
fail-GivesUp e m = (refl, λ tim h. ground (arith, h))

pub crash-GivesUp : {W : Type 0} → GivesUp {W = W} (λ _. crash)
crash-GivesUp e m = (refl, λ tim h. ground (arith, h))

-- A tenant's store that is open, with a value in memory.
abbrev handle_on : Text → TenantData → Disk TenantData → TenantIpam
handle_on name stale d = record { tenant_name = name; tenant_store = tenant_store_of name d stale }

-- A tenant's store that is opened has that tenant's name.
pub open_tenant_named :
    {W : Type 0} (f : Error → Cmd (Machine W) TenantIpam) (name : Text) (m : Machine W)
    (tim : TenantIpam)
    → GivesUp f
    → (open_tenant f name m).0 ≡ returns (ok tim)
    → tim.tenant_name ≡ name
unfolding open_tenant new_tenant_ipam
open_tenant_named f name m tim gives_up h =
    let made = new_tenant_store default_store_dir name (m.tenant_disks name) in
    elim (Result-cases made.0) [
      | inl (s, e) ↦ ground (arith, e, h)
      | inr (x, e) ↦ absurd (
          (gives_up x (record m { tenant_disks = put name made.1 m.tenant_disks })).1 tim
            (ground (arith, e, h)))
    ]

-- The opening of another tenant's store leaves the file alone.
pub open_tenant_other :
    {W : Type 0} (name : Text) (f : Error → Cmd (Machine W) TenantIpam) (other : Text)
    (m : Machine W)
    → GivesUp f
    → name ≢ other
    → (open_tenant f other m).1.tenant_disks name ≡ m.tenant_disks name
unfolding open_tenant new_tenant_ipam save_tenant
open_tenant_other {W} name f other m gives_up apart =
    let made = new_tenant_store default_store_dir other (m.tenant_disks other) in
    elim (Result-cases made.0) [
      | inl (s, e) ↦
          let loaded = (load_tenant_data s).1 in
          rw (e, open_tenant) (put_other name other loaded.disk m.tenant_disks apart)
      | inr (x, e) ↦
          let m' : Machine W = record m { tenant_disks = put other made.1 m.tenant_disks } in
          rw (e, open_tenant)
            (ap (λ z. z.tenant_disks name) (gives_up x m').0
              ∙ put_other name other made.1 m.tenant_disks apart)
    ]

module _ {W : Type 0} (v6 : Ipv6Text) (watch : Watch) (name : Text) where
  -- A store that is open: another tenant's, or this one's, with a value in memory that may be stale.
  abbrev pub IsHandle : TenantIpam → Machine W → Type 0
  IsHandle tim m =
      (name ≢ tim.tenant_name)
      ⊎ ((stale : TenantData) × (tim ≡ handle_on name stale (m.tenant_disks name)))

  -- What follows the opening of another tenant's store.
  pub open_tenant_apart :
      {A : Type 0} (f : Error → Cmd (Machine W) TenantIpam) (owner : Text)
      (k : TenantIpam → Cmd (Machine W) A)
      → GivesUp f
      → name ≢ owner
      → ((tim : TenantIpam) (m : Machine W)
          → IsServedOn v6 watch name m
          → tim.tenant_name ≡ owner
          → IsServedOn v6 watch name (k tim m).1)
      → Serves v6 watch name (open_tenant f owner >>= k)
  open_tenant_apart f owner k gives_up apart go m g =
      let g1 : IsServedOn v6 watch name (open_tenant f owner m).1 =
        subst (IsServed v6 watch name) (sym (open_tenant_other name f owner m gives_up apart)) g in
      bind_with v6 watch name (open_tenant f owner) k m g1 (λ tim opens.
        go tim (open_tenant f owner m).1 g1 (open_tenant_named f owner m tim gives_up opens))

  abbrev opened_machine : (m : Machine W) → IsServedOn v6 watch name m → Machine W
  opened_machine m g = save_tenant (tenant_store_of name (m.tenant_disks name) g.content) name m

  opened_disk :
      (m : Machine W) (g : IsServedOn v6 watch name m)
      → (opened_machine m g).tenant_disks name ≡ m.tenant_disks name
  unfolding save_tenant
  opened_disk m g = put_self name (m.tenant_disks name) m.tenant_disks

  pub open_tenant_then :
      {A : Type 0} (f : Error → Cmd (Machine W) TenantIpam) (owner : Text)
      (k : TenantIpam → Cmd (Machine W) A)
      → GivesUp f
      → ((tim : TenantIpam) (m : Machine W)
          → IsServedOn v6 watch name m
          → IsHandle tim m
          → IsServedOn v6 watch name (k tim m).1)
      → Serves v6 watch name (open_tenant f owner >>= k)
  open_tenant_then f owner k gives_up go m g = elim (text_dec name owner) [
    | yes same ↦
        subst (λ z. IsServedOn v6 watch name ((open_tenant f z >>= k) m).1) same
          (subst (IsServedOn v6 watch name)
            (sym (ap (λ z. z.1) (open_tenant_bind f name g.content k m g.held)))
            (go (tenant_on_disk name g.content m) (opened_machine m g)
              (subst (IsServed v6 watch name) (sym (opened_disk m g)) g)
              (inr (g.content, ap (handle_on name g.content) (sym (opened_disk m g))))))
    | no apart ↦
        open_tenant_apart f owner k gives_up apart
          (λ tim m' g' named. go tim m' g' (inl (λ e. apart (e ∙ named)))) m g
  ]
