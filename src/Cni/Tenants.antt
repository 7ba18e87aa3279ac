-- ===== src/Cni/Tenants.antt =====
-- The plugin's way to a tenant's store: the calls before the one on the address allocator, on a node
-- whose stores are there.
use mathlib.Core.Path.{subst}
use tenant_cni.Base.{
  Error, Text, ap, arith, bytes, if◌then◌else◌, inl, inr, is_empty, ok, refl, returns, some, sym,
  tenant_name_not_found, true, ◌++◌, ◌∙◌, ◌≡◌, ◌≢◌,
}
use tenant_cni.Cni.Args.{get_regex}
use tenant_cni.Cni.Commands.{find_tenant, get_tenant_pod, pod_name_of, tenant_of_pod}
use tenant_cni.Host.{Cmd, fail, pure, ◌>>=◌}
use tenant_cni.Host.Laws.{bind_cases, bind_ok}
use tenant_cni.Ipam.Address.{TenantIpam, new_tenant_ipam}
use tenant_cni.Ipam.Address.Laws.{IsReady, load_tenant_data_ready}
use tenant_cni.Ipam.NodeStore.{default_store_dir}
use tenant_cni.Ipam.Store.{Disk, holds, join, json, missing, new_file_lock, new_store_there, opened}
use tenant_cni.Ipam.TenantStore.{TenantStore, empty_tenant, new_tenant_store}
use tenant_cni.Ipam.Types.{TenantData}
use tenant_cni.Machine.{Machine, on_outside, open_pods, open_tenant, save_pods, save_tenant}

-- What the go-again package documents: a function that succeeds at once is called once.
abbrev pub RetriesOnce : {S A : Type 0} → (Cmd S A → Cmd S A) → Type 0
RetriesOnce {S} {A} retry =
    (f : Cmd S A) (s : S) (x : A) → (f s).0 ≡ returns (ok x) → retry f s ≡ f s

-- The tenant's store as it opens on a disk, with a value.
abbrev pub tenant_store_of : Text → Disk TenantData → TenantData → TenantStore
tenant_store_of name d t =
    let dir = join default_store_dir name in
    record (opened dir (join dir (name ++ bytes ".json")) empty_tenant d) { value = t }

-- A tenant's store that is there, can be locked and written, and holds a value.
pub record HoldsTenant (name : Text) (d : Disk TenantData) (t : TenantData) : Type 0 where
  pub there : d.entry ≢ missing
  pub lockable : (tenant_store_of name d t).mutex ≡ true
  pub openable : d.opens ≡ true
  pub writable : d.writes ≡ true
  pub file : d.file ≡ holds (json t)

-- The same disk once another value has been written.
pub refiled-HoldsTenant :
    (name : Text) (d : Disk TenantData) (t u : TenantData)
    → HoldsTenant name d t
    → HoldsTenant name (record d { file = holds (json u) }) u
unfolding new_file_lock
refiled-HoldsTenant name d t u h = record {
  there = h.there;
  lockable = h.lockable;
  openable = h.openable;
  writable = h.writable;
  file = refl;
}

pub tenant_store_of-IsReady :
    (name : Text) (d : Disk TenantData) (t : TenantData)
    → HoldsTenant name d t
    → IsReady t (tenant_store_of name d t)
tenant_store_of-IsReady name d t h = record {
  locked = h.lockable;
  filed = h.file;
  openable = h.openable;
  writable = h.writable;
}

module _ {W : Type 0} where
  abbrev pub tenant_on_disk : Text → TenantData → Machine W → TenantIpam
  tenant_on_disk name t m = record {
    tenant_name = name;
    tenant_store = tenant_store_of name (m.tenant_disks name) t;
  }

  pub open_tenant_there :
      (f : Error → Cmd (Machine W) TenantIpam) (name : Text) (t : TenantData) (m : Machine W)
      → HoldsTenant name (m.tenant_disks name) t
      → open_tenant f name m ≡ (
        returns (ok (tenant_on_disk name t m)),
        save_tenant (tenant_on_disk name t m).tenant_store name m,
      )
  unfolding open_tenant new_tenant_store new_tenant_ipam
  open_tenant_there f name t m h =
      let dir = join default_store_dir name in
      let file = join dir (name ++ bytes ".json") in
      let d = m.tenant_disks name in
      let s = opened dir file empty_tenant d in
      let made : new_tenant_store default_store_dir name d ≡ (ok s, d) =
        new_store_there dir file empty_tenant d h.there in
      let ready : IsReady t s = record {
        locked = h.lockable;
        filed = h.file;
        openable = h.openable;
        writable = h.writable;
      } in
      rw (made, load_tenant_data_ready t s ready, open_tenant) refl

  -- A command that leaves a part of the machine alone.
  abbrev pub Keeps : {X A : Type 0} → (Machine W → X) → Cmd (Machine W) A → Type 0
  Keeps part c = (m : Machine W) → part (c m).1 ≡ part m

  pub Keeps-bind :
      {X A B : Type 0} (part : Machine W → X) (c : Cmd (Machine W) A) (f : A → Cmd (Machine W) B)
      → Keeps part c
      → ((a : A) → Keeps part (f a))
      → Keeps part (c >>= f)
  Keeps-bind part c f kc kf m = elim (bind_cases c f m) [
    | inl (a, same) ↦ ap (λ z. part z.1) same ∙ kf a (c m).1 ∙ kc m
    | inr same ↦ ap part same ∙ kc m
  ]

  -- A command that leaves the tenants' files alone.
  abbrev pub KeepsTenants : {A : Type 0} → Cmd (Machine W) A → Type 0
  KeepsTenants = Keeps (λ m. m.tenant_disks)

  pub KeepsTenants-bind :
      {A B : Type 0} (c : Cmd (Machine W) A) (f : A → Cmd (Machine W) B)
      → KeepsTenants c
      → ((a : A) → KeepsTenants (f a))
      → KeepsTenants (c >>= f)
  KeepsTenants-bind = Keeps-bind (λ m. m.tenant_disks)

  pub on_outside-KeepsTenants : {A : Type 0} (c : Cmd W A) → KeepsTenants (on_outside c)
  unfolding on_outside
  on_outside-KeepsTenants c m = refl

  pub open_pods-KeepsTenants : KeepsTenants (open_pods {W = W} fail)
  unfolding open_pods save_pods
  open_pods-KeepsTenants m = ground arith

  open_pods-Keeps_outside : Keeps (λ m. m.outside) (open_pods {W = W} fail)
  unfolding open_pods save_pods
  open_pods-Keeps_outside m = ground arith

  -- The search for a pod's tenant leaves alone what the opening of the pod store does.
  pub find_tenant-Keeps :
      {X : Type 0} (part : Machine W → X) (pod : Text)
      → Keeps part (open_pods fail)
      → Keeps part (find_tenant pod)
  unfolding find_tenant get_tenant_pod
  find_tenant-Keeps part pod h =
      let answer : Text → Cmd (Machine W) Text =
        λ t. if is_empty t then fail tenant_name_not_found else pure t in
      Keeps-bind part (open_pods fail >>= λ s. pure (tenant_of_pod pod s.value.pods)) answer
        (Keeps-bind part (open_pods fail) (λ s. pure (tenant_of_pod pod s.value.pods)) h
          (λ _ _. refl))
        (λ _ _. ground arith)

  pub find_tenant-KeepsTenants : (pod : Text) → KeepsTenants (find_tenant {W = W} pod)
  find_tenant-KeepsTenants pod = find_tenant-Keeps (λ m. m.tenant_disks) pod open_pods-KeepsTenants

  pub find_tenant-Keeps_outside : (pod : Text) → Keeps (λ m. m.outside) (find_tenant {W = W} pod)
  find_tenant-Keeps_outside pod = find_tenant-Keeps (λ m. m.outside) pod open_pods-Keeps_outside

  -- A command on the store of a tenant that is there.
  pub open_tenant_bind :
      {A : Type 0} (f : Error → Cmd (Machine W) TenantIpam) (name : Text) (t : TenantData)
      (k : TenantIpam → Cmd (Machine W) A) (m : Machine W)
      → HoldsTenant name (m.tenant_disks name) t
      → (open_tenant f name >>= k) m
        ≡ k (tenant_on_disk name t m) (save_tenant (tenant_on_disk name t m).tenant_store name m)
  open_tenant_bind f name t k m h =
      let opens = open_tenant_there f name t m h in
      bind_ok (open_tenant f name) k m (tenant_on_disk name t m) (ap (λ z. z.0) opens)
      ∙ ap (λ z. k (tenant_on_disk name t m) z.1) opens

-- The pod's name is read from the arguments, and its tenant is found, with a retry that makes one call
-- where that succeeds.
pub record IsFound {W : Type 0} (retry : Cmd (Machine W) Text → Cmd (Machine W) Text)
    (args pod tenant : Text) (m : Machine W) : Type 0 where
  pub retries_once : RetriesOnce retry
  pub reads_name : get_regex args ≡ some pod
  pub finds : (find_tenant pod m).0 ≡ returns (ok tenant)

-- The machine once the tenant's store is open.
abbrev pub found_machine : {W : Type 0} → Text → TenantData → Text → Machine W → Machine W
found_machine {W} tenant t pod m =
    save_tenant (tenant_on_disk tenant t m).tenant_store tenant (find_tenant {W = W} pod m).1

-- The calls with which each of the plugin's commands begins, where the tenant is found and its store is
-- there: what is left is the command's part on that store.
pub open_found_tenant :
    {W A : Type 0} (retry : Cmd (Machine W) Text → Cmd (Machine W) Text) (args pod tenant : Text)
    (t : TenantData) (k : Text → TenantIpam → Cmd (Machine W) A) (m : Machine W)
    → IsFound retry args pod tenant m
    → HoldsTenant tenant (m.tenant_disks tenant) t
    → (pod_name_of args >>= λ name.
          retry (find_tenant name) >>= λ owner. open_tenant fail owner >>= k name)
        m
      ≡ k pod (tenant_on_disk tenant t m) (found_machine tenant t pod m)
unfolding pod_name_of
open_found_tenant {W} {A} retry args pod tenant t k m found h =
    let m1 = (find_tenant {W = W} pod m).1 in
    let same_disk : m1.tenant_disks tenant ≡ m.tenant_disks tenant =
      ap (λ f. f tenant) (find_tenant-KeepsTenants pod m) in
    let h1 : HoldsTenant tenant (m1.tenant_disks tenant) t =
      subst (λ d. HoldsTenant tenant d t) (sym same_disk) h in
    let go : Text → Text → Cmd (Machine W) A = λ name owner. open_tenant fail owner >>= k name in
    let rest : Text → Cmd (Machine W) A = λ name. retry (find_tenant name) >>= go name in
    let named : (pod_name_of args >>= rest) m ≡ rest pod m = rw (found.reads_name) refl in
    let tried = found.retries_once (find_tenant pod) m tenant found.finds in
    let searched : rest pod m ≡ go pod tenant (retry (find_tenant pod) m).1 =
      bind_ok (retry (find_tenant pod)) (go pod) m tenant (ap (λ z. z.0) tried ∙ found.finds) in
    named
    ∙ searched
    ∙ ap (λ z. go pod tenant z.1) tried
    ∙ open_tenant_bind fail tenant t (k pod) m1 h1
    ∙ ap
        (λ d.
          let s = tenant_store_of tenant d t in
          k pod (record { tenant_name = tenant; tenant_store = s }) (save_tenant s tenant m1))
        same_disk
