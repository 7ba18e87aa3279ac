-- ===== src/Ipam/Tenant/Subnets.antt =====
-- The subnets of a node: those that are available and those that its tenants hold.
use mathlib.Core.List.Perm
use mathlib.Core.List.{Nodup, Perm, perm_append_singleton, perm_middle}
use tenant_cni.Base.{
  Error, List, Option, Outcome, Result, Text, [], arith, length, length-append, map, none, refl,
  returns, some, true, ℕ, ◌++◌, ◌+◌, ◌∷◌, ◌≡◌, ◌≢◌,
}
use tenant_cni.Base.Dict.{Dict, insert, lookup, lookup-insert_self}
use tenant_cni.Ipam.NodeStore.{NodeStore, load_node_data, store_node_data}
use tenant_cni.Ipam.Store.{Disk}
use tenant_cni.Ipam.Tenant.{NodeIpam, allocate_tenant, read_prefix, take_subnet}
use tenant_cni.Ipam.Types.{NodeData, TenantData}
use tenant_cni.Net.Addr.{Ipv6Text, Prefix}
use tenant_cni.Net.Decimal.{ℤ}

-- The subnets that tenants hold, in the order of the map.
abbrev pub held : Dict Prefix → List Prefix
held [] = []
held ((_, p) ∷ m) = p ∷ held m

abbrev pub subnets : Ipv6Text → NodeData → List Prefix
subnets v6 v = map (read_prefix v6) v.available_list ++ held v.tenant_list

held-insert_new :
    (name : Text) (p : Prefix) (m : Dict Prefix)
    → lookup name m ≡ none
    → held (insert name p m) ≡ held m ++ (p ∷ [])
unfolding insert
held-insert_new name p [] h = refl
held-insert_new name p ((j, q) ∷ m) h = ground (arith, held-insert_new name p m)

held-insert_old :
    (name : Text) (p : Prefix) (m : Dict Prefix)
    → lookup name m ≢ none
    → length (held (insert name p m)) ≡ length (held m)
unfolding insert
held-insert_old name p [] h = absurd (h refl)
held-insert_old name p ((j, q) ∷ m) h = ground (arith, held-insert_old name p m)

-- One more subnet behind two lists, or in front of them.
perm_rotate {ℓ} :
    {A : Type ℓ} (p : A) (xs ys : List A) → Perm (xs ++ (ys ++ (p ∷ []))) (p ∷ (xs ++ ys))
perm_rotate p xs ys =
    Perm.trans (Perm.append_left xs (perm_append_singleton p ys)) (perm_middle xs ys)

-- What `AllocateTenant` leaves of the node's data where a subnet is available.
abbrev pub taken : Ipv6Text → Text → Text → List Text → NodeData → NodeData
taken v6 name c rest v = record v {
  available_list = rest;
  tenant_list = insert name (read_prefix v6 c) v.tenant_list;
}

pub taken-perm :
    (v6 : Ipv6Text) (name c : Text) (rest : List Text) (v : NodeData)
    → v.available_list ≡ c ∷ rest
    → lookup name v.tenant_list ≡ none
    → Perm (subnets v6 (taken v6 name c rest v)) (subnets v6 v)
taken-perm v6 name c rest v e fresh =
    rw (e, held-insert_new name (read_prefix v6 c) v.tenant_list fresh)
      (perm_rotate (read_prefix v6 c) (map (read_prefix v6) rest) (held v.tenant_list))

-- How `take_subnet` ends where a subnet is available: the node's data is `taken`.
take_subnet-value :
    (v6 : Ipv6Text) (name : Text) (vni bits : ℤ) (rand : Result (List ℕ)) (s : NodeStore)
    (disk : Disk TenantData) (c : Text) (rest : List Text) (o : Outcome (Option Error))
    (s' : NodeStore) (written : Disk TenantData)
    → s.value.available_list ≡ c ∷ rest
    → take_subnet v6 name vni bits rand s disk ≡ (o, s', written)
    → s'.value ≡ taken v6 name c rest s.value
unfolding take_subnet store_node_data
take_subnet-value v6 name vni bits rand s disk c rest o s' written e h = ground (arith)

pub take_subnet-none :
    (v6 : Ipv6Text) (name : Text) (vni bits : ℤ) (rand : Result (List ℕ)) (s : NodeStore)
    (disk : Disk TenantData)
    → s.value.available_list ≡ []
    → take_subnet v6 name vni bits rand s disk ≡ (returns none, s, disk)
unfolding take_subnet
take_subnet-none v6 name vni bits rand s disk e = ground arith

module _ (v6 : Ipv6Text) (name : Text) (vni bits : ℤ) (rand : Result (List ℕ)) (nim : NodeIpam)
    (disk : Disk TenantData) (loaded s : NodeStore) (o : Outcome (Option Error))
    (written : Disk TenantData) (lockable : nim.node_store.mutex ≡ true)
    (loads : load_node_data nim.node_store ≡ (none, loaded))
    (run : allocate_tenant v6 name vni bits rand nim disk ≡ (o, s, written)) where
  pub allocate_tenant_taken :
      (c : Text) (rest : List Text)
      → loaded.value.available_list ≡ c ∷ rest
      → s.value ≡ taken v6 name c rest loaded.value
  unfolding allocate_tenant
  allocate_tenant_taken c rest e =
      take_subnet-value v6 name vni bits rand loaded disk c rest o s written e (ground arith)

  allocate_tenant_unchanged : loaded.value.available_list ≡ [] → s ≡ loaded
  unfolding allocate_tenant
  allocate_tenant_unchanged e = ground (arith, take_subnet-none v6 name vni bits rand loaded disk e)

  -- Once the node's store has been locked and its data loaded, `AllocateTenant` for a tenant that the
  -- node does not have neither loses nor makes up a subnet, whatever the writes to disk answer and also
  -- where the tenant's store cannot be made, which panics: those that are available and those that tenants
  -- hold are, together, the same as before.
  pub allocate_tenant_conserves :
      lookup name loaded.value.tenant_list ≡ none
      → Perm (subnets v6 s.value) (subnets v6 loaded.value)
  allocate_tenant_conserves fresh = from_list loaded.value.available_list refl
    where
      from_list :
          (avail : List Text)
          → loaded.value.available_list ≡ avail
          → Perm (subnets v6 s.value) (subnets v6 loaded.value)
      from_list [] e = rw (allocate_tenant_unchanged e) (Perm.refl _)
      from_list (c ∷ rest) e =
          rw (allocate_tenant_taken c rest e) (taken-perm v6 name c rest loaded.value e fresh)

  -- Once the node's store has been locked and its data loaded, with a subnet available: if no subnet
  -- stood twice among the available and the held ones, then none does after `AllocateTenant` for a new
  -- tenant, so that no two tenants hold one subnet; and the new tenant holds the one that was the first
  -- available. That holds whether or not the tenant's own store can be made.
  pub allocate_tenant_exclusive :
      (c : Text) (rest : List Text)
      → lookup name loaded.value.tenant_list ≡ none
      → Nodup (subnets v6 loaded.value)
      → loaded.value.available_list ≡ c ∷ rest
      → Nodup (subnets v6 s.value)
        × (lookup name s.value.tenant_list ≡ some (read_prefix v6 c))
        × (s.value.available_list ≡ rest)
  allocate_tenant_exclusive c rest fresh once e =
      let same = allocate_tenant_taken c rest e in
      (
        Perm.nodup (Perm.symm (allocate_tenant_conserves fresh)) once,
        rw same (lookup-insert_self name (read_prefix v6 c) loaded.value.tenant_list),
        rw same,
      )

  -- Once the node's store has been locked and its data loaded, with a subnet available: `AllocateTenant`
  -- for a tenant that the node has already takes one more subnet and forgets the one that the tenant
  -- held, so that the node has one subnet less.
  pub allocate_tenant_leaks :
      (c : Text) (rest : List Text)
      → lookup name loaded.value.tenant_list ≢ none
      → loaded.value.available_list ≡ c ∷ rest
      → length (subnets v6 s.value) + 1 ≡ length (subnets v6 loaded.value)
  allocate_tenant_leaks c rest known e =
      rw (allocate_tenant_taken c rest e, e)
        (omega (
          arith,
          length-append (map (read_prefix v6) rest)
              (held (insert name (read_prefix v6 c) loaded.value.tenant_list)),
          length-append (map (read_prefix v6) rest) (held loaded.value.tenant_list),
          held-insert_old name (read_prefix v6 c) loaded.value.tenant_list known,
        ))
