-- ===== src/System/Served.antt =====
-- A tenant's file that serves its pods, and the commands after which it does so still.
use mathlib.Core.Path.{subst}
use tenant_cni.Base.{Option, Text, arith, none, some, ◌≡◌}
use tenant_cni.Cni.Tenants.{HoldsTenant, tenant_store_of}
use tenant_cni.Host.{Cmd}
use tenant_cni.Ipam.Address.Consistency.{IsConsistent, IsIpv4Subnet}
use tenant_cni.Ipam.Address.Door.{Call-SameDoor}
use tenant_cni.Ipam.Address.Refinement.{Call, Call-StepTo, IsAddressOf, IsServing, IsSparedBy}
use tenant_cni.Ipam.Address.View.{leases}
use tenant_cni.Ipam.Leases.{IsExclusive, Leases, Step-IsExclusive}
use tenant_cni.Ipam.Store.{Disk, new_file_lock}
use tenant_cni.Ipam.TenantStore.{TenantStore}
use tenant_cni.Ipam.Types.{TenantData}
use tenant_cni.Net.Addr.{Ipv6Text}
use tenant_cni.Net.Ip.{Ip}
use tenant_cni.Net.RoundTrip.{IsBytes}

-- What is watched of a tenant's file: the text of its subnet, and a container's ID with its address.
pub record Watch : Type 0 where
  pub cidr : Text
  pub lease : Option (Text × Text)

-- The container that is watched has its address.
abbrev pub IsKept : Option (Text × Text) → Leases → Type 0
IsKept none l = Unit {0}
IsKept (some (holder, addr)) l = l holder ≡ some addr

-- What is said of the container that is watched, where one is.
abbrev pub SparedIn : Option (Text × Text) → (Text → Type 0) → Type 0
SparedIn none P = Unit {0}
SparedIn (some (holder, _)) P = P holder

pub spared_always : (lease : Option (Text × Text)) → SparedIn lease (λ _. Unit {0})
spared_always none = tt
spared_always (some _) = tt

pub spared_both :
    (lease : Option (Text × Text)) (P Q : Text → Type 0)
    → SparedIn lease (λ h. P h × Q h)
    → SparedIn lease P × SparedIn lease Q
spared_both none P Q h = (tt, tt)
spared_both (some _) P Q h = h

-- The tenant's store is there, can be locked and written, and holds consistent data with an IPv4 subnet of
-- the given text; no two containers have one address, each address is one of the subnet, and the container
-- that is watched has its own.
pub record IsServed (v6 : Ipv6Text) (watch : Watch) (name : Text) (d : Disk TenantData)
    : Type 0 where
  pub content : TenantData
  pub held : HoldsTenant name d content
  pub consistent : IsConsistent v6 content
  pub subnet : IsIpv4Subnet v6 content
  pub same_cidr : content.tenant_cidr ≡ watch.cidr
  pub exclusive : IsExclusive (IsAddressOf v6 watch.cidr) (leases content)
  pub lease_kept : IsKept watch.lease (leases content)

keep_leases :
    (lease : Option (Text × Text)) (Spared : Text → Type 0) (l l' : Leases)
    → ((holder addr : Text) → Spared holder → l holder ≡ some addr → l' holder ≡ some addr)
    → SparedIn lease Spared
    → IsKept lease l
    → IsKept lease l'
keep_leases none Spared l l' keeps spared h = tt
keep_leases (some (holder, addr)) Spared l l' keeps spared h = keeps holder addr spared h

-- The file of a container with an address, watched from then on.
pub watched :
    (v6 : Ipv6Text) (cidr name : Text) (d : Disk TenantData) (u : TenantData) (id addr : Text)
    → IsServed v6 (record { cidr = cidr; lease = none }) name d
    → HoldsTenant name d u
    → leases u id ≡ some addr
    → IsServed v6 (record { cidr = cidr; lease = some (id, addr) }) name d
watched v6 cidr name d u id addr g h given =
    let same : u ≡ g.content = ground (arith, h.file, HoldsTenant.file g.held) in
    record {
      content = g.content;
      held = g.held;
      consistent = g.consistent;
      subnet = g.subnet;
      same_cidr = g.same_cidr;
      exclusive = g.exclusive;
      lease_kept = subst (λ z. leases z id ≡ some addr) same given;
    }

module _ {S A : Type 0} where
  -- A function that is called any number of times, each time on the state that the last call has left.
  pub data Runs (f : Cmd S A) (s : S) : S → Type 0 where
    never : Runs f s s
    another_run : (s' : S) → Runs f s s' → Runs f s (f s').1

  pub Runs-invariant :
      (P : S → Type 0) (f : Cmd S A) (s s' : S)
      → ((x : S) → P x → P (f x).1)
      → P s
      → Runs f s s'
      → P s'
  Runs-invariant P f s _ keeps p never = p
  Runs-invariant P f s _ keeps p (another_run s' runs) =
      keeps s' (Runs-invariant P f s s' keeps p runs)

-- What the go-again package documents: a retry calls the function, and does nothing else.
abbrev pub OnlyRuns : {S A : Type 0} → (Cmd S A → Cmd S A) → Type 0
OnlyRuns {S} {A} retry = (f : Cmd S A) (s : S) → Runs f s (retry f s).1

module _ (v6 : Ipv6Text) (next_ip : Ip → Ip) (bytes_next : (ip : Ip) → IsBytes (next_ip ip)) where
  -- A call that takes nothing from the container that is watched.
  abbrev pub SparingCall : Watch → TenantStore → TenantStore → Type 0
  SparingCall watch s s' =
      (call : Call v6 next_ip s s') × SparedIn watch.lease (λ h. IsSparedBy v6 next_ip h call)

  -- One call on the allocator, of a process that has opened the store at any time: what it has in memory
  -- may be stale.
  pub Call-IsServed :
      (watch : Watch) (name : Text) (d : Disk TenantData) (stale : TenantData) (s' : TenantStore)
      → IsServed v6 watch name d
      → SparingCall watch (tenant_store_of name d stale) s'
      → IsServed v6 watch name s'.disk
  unfolding new_file_lock
  Call-IsServed watch name d stale s' g (call, spared) =
      let h = g.held in
      let s = tenant_store_of name d stale in
      let serving : IsServing v6 watch.cidr g.content s = record {
        ready = record {
          locked = h.lockable;
          filed = h.file;
          openable = h.openable;
          writable = h.writable;
        };
        consistent = g.consistent;
        subnet = g.subnet;
        same_cidr = g.same_cidr;
      } in
      let (t', serving', step, keeps) =
        Call-StepTo v6 next_ip bytes_next watch.cidr g.content s s' serving call in
      let door = Call-SameDoor v6 next_ip s s' call in
      let r = serving'.ready in
      record {
        content = t';
        held = record {
          there = rw (door.0) (h.there);
          lockable = ground (arith, door, h.lockable);
          openable = r.openable;
          writable = r.writable;
          file = r.filed;
        };
        consistent = serving'.consistent;
        subnet = serving'.subnet;
        same_cidr = serving'.same_cidr;
        exclusive = Step-IsExclusive step (g.exclusive);
        lease_kept =
            keep_leases watch.lease (λ h. IsSparedBy v6 next_ip h call) (leases g.content)
              (leases t') keeps spared g.lease_kept;
      }
