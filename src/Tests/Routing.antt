-- ===== src/Tests/Routing.antt =====
-- The firewall, as the chain alone.
use tenant_cni.Base.{
  Bool, List, Text, [], arith, bad_key, bytes, err, false, inl, none, ok, refl, returns, some,
  text_dec, text_eq, true, ◌&&◌, ◌/◌, ◌==◌, ◌||◌, ◌∷◌, ◌≡◌,
}
use tenant_cni.Base.Dict.{Dict, lookup}
use tenant_cni.Controller.Add.{separate}
use tenant_cni.Controller.Events.{Client}
use tenant_cni.Controller.Isolation.{Succeeds, separate_isolates}
use tenant_cni.Host.{pure}
use tenant_cni.Host.Iptables.{Iptables, Rule, drop_packet}
use tenant_cni.Net.Addr.{Addr, Prefix, addr_text, dotted_text, ipv4, octets_of, prefix, prefix_text}
use tenant_cni.Net.Decimal.{decimal}
use tenant_cni.Routing.Rules.{allow_forwarding_tenant, block_tenant_to_tenant_traffic, forward_from}
use tenant_cni.Routing.Rules.Isolation.{IsFirewall, append_new, insert_new, verdict}
use tenant_cni.Routing.Rules.Tenants.{
  at_once, block_tenant_to_tenant_traffic_isolates, forwarded_tenant,
}
use tenant_cni.Tests.{no_ipv6_text}
use tenant_cni.Tests.Controller.{no_mac, no_netlink, server, variables}

-- The package on a node whose outside is the chain.
abbrev chain : Iptables (List Rule)
chain = record {
  new_iptables = λ rules. (returns (ok tt), rules);
  append_unique = λ r rules. (returns (ok tt), append_new r rules);
  insert_unique = λ _ r rules. (returns (ok tt), insert_new r rules);
}

chain-IsFirewall : IsFirewall chain (λ rules. rules)
chain-IsFirewall = record {
  new_keeps = λ _. refl;
  appends = λ _ _ _. refl;
  append_fails = λ _ _ h. absurd (h refl);
  inserts = λ _ _ _. refl;
  insert_fails = λ _ _ h. absurd (h refl);
}

abbrev red_cidr : Text
red_cidr = bytes "11.4.0.0/24"

abbrev blue_cidr : Text
blue_cidr = bytes "11.4.1.0/24"

abbrev covers : Text → Addr → Bool
covers s (ipv4 v) =
    (text_eq s red_cidr && (v / 256 == 721920)) || (text_eq s blue_cidr && (v / 256 == 721921))
covers s _ = false

-- A chain that forwards the blue subnet already.
abbrev start_chain : List Rule
start_chain = forward_from blue_cidr ∷ []

abbrev blocked_chain : List Rule
blocked_chain = (block_tenant_to_tenant_traffic chain red_cidr blue_cidr start_chain).1

blocks : (block_tenant_to_tenant_traffic chain red_cidr blue_cidr start_chain).0 ≡ returns (ok tt)
unfolding block_tenant_to_tenant_traffic
blocks = refl

abbrev later_chain : List Rule
later_chain = (allow_forwarding_tenant chain red_cidr blocked_chain).1

red_is_covered : covers red_cidr (ipv4 184811522) ≡ true
unfolding text_dec
red_is_covered = refl

blue_is_covered : covers blue_cidr (ipv4 184811778) ≡ true
unfolding text_dec
blue_is_covered = refl

block_tenant_to_tenant_traffic_isolates_example :
    (verdict covers later_chain
        (record { interface = bytes "br-red"; from = ipv4 184811522; to = ipv4 184811778 })
      ≡ some drop_packet)
    × (verdict covers later_chain
          (record { interface = bytes "br-red"; from = ipv4 184811778; to = ipv4 184811522 })
        ≡ some drop_packet)
block_tenant_to_tenant_traffic_isolates_example =
    block_tenant_to_tenant_traffic_isolates chain (λ rules. rules) chain-IsFirewall covers red_cidr
      blue_cidr start_chain later_chain (inl (refl, tt)) blocks
      (forwarded_tenant blocked_chain red_cidr at_once) (bytes "br-red") (ipv4 184811522)
      (ipv4 184811778) red_is_covered blue_is_covered

chain-Succeeds : Succeeds chain
chain-Succeeds = record { opens = λ _. refl; appends = λ _ _. refl; inserts = λ _ _. refl }

-- A client without a queue.
abbrev quiet : Client (List Rule)
quiet = record {
  kube = server;
  enqueue = λ _. pure tt;
  dequeue = pure none;
  forget = λ _. pure tt;
  done = λ _. pure tt;
  record_event = λ _ _. pure tt;
  retry_on_conflict = λ m. m;
  key_of = λ t. t.object_name;
  split_key = λ key. err bad_key;
  read_dir = λ _. ok [];
  remove_all = λ _ _. none;
}

abbrev two_tenants : Dict Prefix
two_tenants =
    (bytes "red", prefix (ipv4 184811520) 24) ∷ (bytes "blue", prefix (ipv4 184811776) 24) ∷ []

abbrev separated_chain : List Rule
separated_chain =
    (separate quiet no_netlink chain variables no_ipv6_text no_mac (bytes "red") red_cidr
      two_tenants start_chain).1

blue_is_there : lookup (bytes "blue") two_tenants ≡ some (prefix (ipv4 184811776) 24)
unfolding text_dec
blue_is_there = refl

blue_text_is_covered :
    covers (prefix_text no_ipv6_text (prefix (ipv4 184811776) 24)) (ipv4 184811778) ≡ true
unfolding text_dec prefix_text addr_text dotted_text octets_of decimal
blue_text_is_covered = refl

separate_isolates_example :
    (verdict covers separated_chain
        (record { interface = bytes "br-red"; from = ipv4 184811522; to = ipv4 184811778 })
      ≡ some drop_packet)
    × (verdict covers separated_chain
          (record { interface = bytes "br-red"; from = ipv4 184811778; to = ipv4 184811522 })
        ≡ some drop_packet)
separate_isolates_example =
    separate_isolates quiet no_netlink chain variables no_ipv6_text no_mac (λ rules. rules)
      chain-IsFirewall chain-Succeeds covers (bytes "red") red_cidr (bytes "blue")
      (prefix (ipv4 184811776) 24) two_tenants start_chain (inl (refl, tt)) blue_is_there
      (λ e. ground (arith, e)) (λ e. ground (arith, e)) (bytes "br-red") (ipv4 184811522)
      (ipv4 184811778) red_is_covered blue_text_is_covered
