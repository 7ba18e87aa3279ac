-- ===== src/Ipam/Address/View.antt =====
-- A tenant's data as a pool of leases: who has which address.
use mathlib.Core.Path.{fun_ext}
use tenant_cni.Base.{Text, [], arith, none, refl, some, sym, text_dec, ◌∷◌, ◌≡◌, ◌≢◌}
use tenant_cni.Base.Dict.{Dict, NodupKeys, erase, lookup}
use tenant_cni.Ipam.Address.Laws.{IsUnknown, with_ip}
use tenant_cni.Ipam.Address.Uniqueness.{
  UniqueIds, key_of_id-erase, key_of_id-insert_ne, key_of_id-insert_self, key_of_id-lookup,
}
use tenant_cni.Ipam.Leases.{IsFree, Leases, grant, revoke}
use tenant_cni.Ipam.TenantStore.{key_of_id}
use tenant_cni.Ipam.Types.{ContainerNetInfo, TenantData}
use tenant_cni.Net.Addr.{Ipv6Text}
use tenant_cni.Net.Ip.{Ip, ip_text}

-- Who has which address, without the order of the entries and without the last address.
abbrev pub leases : TenantData → Leases
leases t id = key_of_id id t.ips

pub leases-with_ip :
    (v6 : Ipv6Text) (ip : Ip) (info : ContainerNetInfo) (t : TenantData)
    → lookup (ip_text v6 ip) t.ips ≡ none
    → IsUnknown info.id t
    → leases (with_ip v6 ip info t) ≡ grant info.id (ip_text v6 ip) (leases t)
unfolding grant
leases-with_ip v6 ip info t free unknown = fun_ext (λ id. elim (text_dec id info.id) [
  | yes same ↦ ground (arith, same, key_of_id-insert_self (ip_text v6 ip) info t.ips free unknown)
  | no other ↦
      ground
        (arith, other, key_of_id-insert_ne id (ip_text v6 ip) info t.ips free (λ e. other (sym e)))
])

key_of_id-erase_ne :
    (id other key : Text) (ips : Dict ContainerNetInfo)
    → NodupKeys ips
    → key_of_id id ips ≡ some key
    → other ≢ id
    → key_of_id other (erase key ips) ≡ key_of_id other ips
unfolding key_of_id erase
key_of_id-erase_ne id other key [] u h d = refl
key_of_id-erase_ne id other key ((j, info) ∷ ips) u h d =
    ground (arith, key_of_id-erase_ne id other key ips u.1, h, d, key_of_id-lookup id key ips)

pub leases-erase :
    (id key : Text) (t : TenantData)
    → NodupKeys t.ips
    → UniqueIds t.ips
    → key_of_id id t.ips ≡ some key
    → leases (record t { ips = erase key t.ips }) ≡ revoke id (leases t)
unfolding revoke
leases-erase id key t u v h = fun_ext (λ other. elim (text_dec other id) [
  | yes same ↦ ground (arith, same, key_of_id-erase id key t.ips v u h)
  | no differ ↦ ground (arith, differ, key_of_id-erase_ne id other key t.ips u h differ)
])

pub IsFree-leases : (key : Text) (t : TenantData) → lookup key t.ips ≡ none → IsFree key (leases t)
IsFree-leases key t free id e = key_of_id-lookup id key t.ips e free
