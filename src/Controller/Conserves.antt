-- ===== src/Controller/Conserves.antt =====
-- The deletion of a tenant and the subnets of the node.
use mathlib.Core.List.Perm
use mathlib.Core.List.{Perm, append_assoc, map-append}
use mathlib.Core.Path.{subst, subst₂}
use tenant_cni.Base.{
  List, Result, Text, [], ap, arith, map, none, refl, some, sym, text_dec, ℕ, ◌++◌, ◌<◌, ◌∙◌, ◌∷◌,
  ◌≡◌, ◌≢◌, ◌≤◌,
}
use tenant_cni.Base.Dict.{Dict, NodupKeys, erase, erase-NodupKeys, lookup, lookup-erase_self}
use tenant_cni.Controller.Delete.{release_subnet, return_subnets}
use tenant_cni.Controller.Events.{Client}
use tenant_cni.Controller.Release.{release_subnet-Holds}
use tenant_cni.Controller.Subnets.{return_subnets_lem, with_returned}
use tenant_cni.Host.Netlink.{Netlink}
use tenant_cni.Ipam.Tenant.{read_prefix}
use tenant_cni.Ipam.Tenant.OnDisk.{Holds}
use tenant_cni.Ipam.Tenant.Subnets.{held, subnets}
use tenant_cni.Ipam.Types.{NodeData}
use tenant_cni.K8s.{Environment}
use tenant_cni.Machine.{Machine, pod_list}
use tenant_cni.Net.Addr.{Ipv6Text, Prefix, ipv4, prefix, prefix_text}
use tenant_cni.Net.PrefixText.{parse_prefix-prefix_text}
use tenant_cni.Routing.Rules.Isolation.{fits}

-- The subnet of a name comes off the held ones with its entry.
pub held-erase :
    (name : Text) (p : Prefix) (m : Dict Prefix)
    → lookup name m ≡ some p
    → Perm (held m) (p ∷ held (erase name m))
unfolding erase
held-erase name p [] h = absurd (ground arith)
held-erase name p ((j, q) ∷ m) h = elim (text_dec name j) [
  | yes same ↦
      let e : q ≡ p = ground (arith, same, h) in
      let gone : erase name ((j, q) ∷ m) ≡ m = ground (arith, same) in
      subst₂ (λ x ys. Perm (q ∷ held m) (x ∷ held ys)) e (sym gone) (Perm.refl _)
  | no other ↦
      let later : lookup name m ≡ some p = ground (arith, other, h) in
      let stays : erase name ((j, q) ∷ m) ≡ (j, q) ∷ erase name m = ground (arith, other) in
      subst (λ ys. Perm (q ∷ held m) (p ∷ held ys)) (sym stays)
        (Perm.trans (Perm.cons q (held-erase name p m later)) (Perm.swap p q (held (erase name m))))
]

-- A deleted tenant's subnet, whose text reads back, goes back to the available ones.
pub return_subnets-Perm :
    (v6 : Ipv6Text) (name : Text) (p : Prefix) (old : NodeData)
    → read_prefix v6 (prefix_text v6 p) ≡ p
    → NodupKeys old.tenant_list
    → lookup name old.tenant_list ≡ some p
    → Perm (subnets v6 (return_subnets v6 name old.tenant_list old)) (subnets v6 old)
return_subnets-Perm v6 name p old text once found =
    let avail = map (read_prefix v6) old.available_list in
    let rest = held (erase name old.tenant_list) in
    let split : map (read_prefix v6) (old.available_list ++ (prefix_text v6 p ∷ []))
        ≡ avail ++ (p ∷ []) =
      map-append (read_prefix v6) old.available_list (prefix_text v6 p ∷ [])
      ∙ ap (λ x. avail ++ (x ∷ [])) text in
    let flat : (avail ++ (p ∷ [])) ++ rest ≡ avail ++ (p ∷ rest) =
      append_assoc avail (p ∷ []) rest in
    let left : subnets v6 (with_returned v6 name p old) ≡ avail ++ (p ∷ rest) =
      ap (λ x. x ++ rest) split ∙ flat in
    rw (return_subnets_lem v6 name old.tenant_list p old once found, left)
      (Perm.append_left avail (Perm.symm (held-erase name p old.tenant_list found)))

module _ {W : Type 0} (c : Client W) (n : Netlink W) (env : Environment) (v6 : Ipv6Text)
    (parse_mac : Text → Result (List ℕ)) where
  -- The end of `deleteTenant` on a node, which opens the node's store, returns the tenant's subnet and
  -- writes the store: where that store is there, can be locked and written, and holds data that names each
  -- tenant once and has the tenant with an IPv4 subnet of at most 32 bits, and where the node has not the
  -- name of the pods' store. Then the store on disk holds data that names each tenant once and no longer
  -- this one, and whose subnets, those that are available, as `AllocateTenant` reads them, and those that
  -- tenants hold, are together the same as before.
  pub release_subnet_conserves :
      (node name : Text) (a bits : ℕ) (old : NodeData) (m : Machine W)
      → node ≢ pod_list
      → Holds node (m.node_disks node) old
      → NodupKeys old.tenant_list
      → lookup name old.tenant_list ≡ some (prefix (ipv4 a) bits)
      → a < 4294967296
      → bits ≤ 32
      → (v : NodeData) × Holds node
          ((release_subnet c n env v6 parse_mac node name m).1.node_disks node)
          v
        × NodupKeys v.tenant_list
        × (lookup name v.tenant_list ≡ none)
        × Perm (subnets v6 v) (subnets v6 old)
  unfolding read_prefix
  release_subnet_conserves node name a bits old m _ h once found fits short =
      let p = prefix (ipv4 a) bits in
      let text : read_prefix v6 (prefix_text v6 p) ≡ p =
        rw (parse_prefix-prefix_text v6 a bits fits short, read_prefix) refl in
      let same = return_subnets_lem v6 name old.tenant_list p old once found in
      (
        return_subnets v6 name old.tenant_list old,
        release_subnet-Holds c n env v6 parse_mac node name old m h,
        subst (λ z. NodupKeys z.tenant_list) (sym same) (erase-NodupKeys name old.tenant_list once),
        subst (λ z. lookup name z.tenant_list ≡ none) (sym same)
            (lookup-erase_self name old.tenant_list once),
        return_subnets-Perm v6 name p old text once found,
      )
