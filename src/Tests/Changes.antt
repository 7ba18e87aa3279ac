-- ===== src/Tests/Changes.antt =====
-- What happens on a node with two subnets: a tenant comes and goes, and then a pod comes.
use mathlib.Core.List.{Mem, Nodup, Perm, eq-or-mem_of_mem-cons, not-mem-nil}
use mathlib.Core.Logic.{∥∥₁_elim}
use mathlib.Core.Path.{subst}
use native.Mathlib.Decide.{ℕ_discrete}
use tenant_cni.Base.{arith, bytes, inl, inr, none, refl, sym, text_dec, ◌≡◌}
use tenant_cni.Base.Dict.{NodupKeys, lookup}
use tenant_cni.Cni.Commands.{cmd_add}
use tenant_cni.Controller.Conserves.{release_subnet_conserves}
use tenant_cni.Controller.Delete.{release_subnet}
use tenant_cni.Ipam.Store.{holds, json, new_file_lock}
use tenant_cni.Ipam.Tenant.{read_prefix}
use tenant_cni.Ipam.Tenant.OnDisk.{Holds}
use tenant_cni.Ipam.Tenant.Subnets.{subnets}
use tenant_cni.Ipam.Types.{NodeData}
use tenant_cni.Machine.{IsApart, Machine}
use tenant_cni.Net.Addr.{
  Prefix, addr_text, dotted_text, form_of, octets, octets_of, parse_addr, parse_ipv4, parse_prefix,
  prefix_text,
}
use tenant_cni.Net.Decimal.{decimal, read_digits}
use tenant_cni.System.Changes.{
  Changes, Changes-Nodup, plugin_added, tenant_comes, tenant_goes, then_change, unchanged,
}
use tenant_cni.System.NodeSubnets.{ReadsBack}
use tenant_cni.Tests.{good_disk, next_address, no_ipv6_text}
use tenant_cni.Tests.Commands.{call, netlink, once}
use tenant_cni.Tests.Controller.{no_mac, variables}
use tenant_cni.Tests.Release.{two-Holds}
use tenant_cni.Tests.System.{
  add_red, controller, delete_red, deletes_red, new_node, once-OnlyRuns, red-IsApart, red_tenant,
  tables,
}
use tenant_cni.Tests.Tenant.{random_bytes, red_again, two_differ, two_subnets}

Prefix-IsSet : IsSet Prefix
Prefix-IsSet = hlevel ℕ_discrete

two_read_back : (p : Prefix) → Mem p (subnets no_ipv6_text two_subnets) → ReadsBack no_ipv6_text p
unfolding read_prefix parse_prefix parse_addr form_of parse_ipv4 octets read_digits prefix_text
    addr_text dotted_text octets_of decimal
two_read_back p m = ∥∥₁_elim (eq-or-mem_of_mem-cons m) (Prefix-IsSet _ _) (λ o. elim o [
  | inl same ↦ subst (ReadsBack no_ipv6_text) (sym same) refl
  | inr later ↦ ∥∥₁_elim (eq-or-mem_of_mem-cons later) (Prefix-IsSet _ _) (λ z. elim z [
    | inl same ↦ subst (ReadsBack no_ipv6_text) (sym same) refl
    | inr none_left ↦ absurd (not-mem-nil none_left)
  ])
])

red_is_new :
    (v : NodeData)
    → Holds (bytes "n1") (new_node.node_disks (bytes "n1")) v
    → lookup (bytes "red") v.tenant_list ≡ none
red_is_new v h = ground (arith, h.file)

-- A pod comes when its tenant is gone.
abbrev after_pod : Machine (Unit {0})
after_pod = (cmd_add netlink no_ipv6_text next_address once 3 call delete_red.1).1

abbrev red_changes :
    Changes controller netlink tables variables no_ipv6_text no_mac next_address once 3
      (bytes "n1")
      new_node
      after_pod
red_changes =
    then_change delete_red.1 after_pod
      (then_change add_red.1 delete_red.1
        (then_change new_node add_red.1 unchanged (
          tenant_comes (bytes "default") (bytes "red") red_tenant random_bytes red_is_new
            red-IsApart))
        (tenant_goes (bytes "red") red-IsApart deletes_red))
      (plugin_added call)

Changes-Nodup_example :
    (v' : NodeData) × Holds (bytes "n1") (after_pod.node_disks (bytes "n1")) v'
    × NodupKeys v'.tenant_list
    × Perm (subnets no_ipv6_text v') (subnets no_ipv6_text two_subnets)
    × Nodup (subnets no_ipv6_text v')
Changes-Nodup_example =
    Changes-Nodup controller netlink tables variables no_ipv6_text no_mac next_address once 3
      once-OnlyRuns (bytes "n1") two_subnets new_node after_pod (IsApart.node_not_pods red-IsApart)
      two-Holds tt two_differ two_read_back red_changes

-- A node that has one tenant.
abbrev node_with_red : Machine (Unit {0})
node_with_red = record new_node { node_disks = λ _. good_disk (holds (json red_again)) }

again-Holds : Holds (bytes "n1") (good_disk (holds (json red_again))) red_again
unfolding new_file_lock
again-Holds = record {
  there = λ e. absurd (ground (arith, e));
  lockable = refl;
  openable = refl;
  writable = refl;
  file = refl;
}

release_subnet_conserves_example :
    (v : NodeData) × Holds
      (bytes "n1")
      ((release_subnet controller netlink variables no_ipv6_text no_mac
          (bytes "n1")
          (bytes "red")
          node_with_red).1.node_disks
        (bytes "n1"))
      v
    × NodupKeys v.tenant_list
    × (lookup (bytes "red") v.tenant_list ≡ none)
    × Perm (subnets no_ipv6_text v) (subnets no_ipv6_text red_again)
unfolding text_dec
release_subnet_conserves_example =
    release_subnet_conserves controller netlink variables no_ipv6_text no_mac (bytes "n1")
      (bytes "red") 184811776 24 red_again node_with_red (IsApart.node_not_pods red-IsApart)
      again-Holds (refl, tt) refl (omega arith) (omega arith)
