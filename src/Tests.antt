-- ===== src/Tests.antt =====
-- Runs of the development at concrete inputs; the children apply its theorems to them.
mod Ipam
mod Tenant
mod Routing
mod Plugin
mod Controller
mod Release
mod Pool
mod Commands
mod System
mod Changes
mod FirstPod
mod Pods
use tenant_cni.Base.{
  Bool-cases, List, [], arith, bytes, if◌then◌else◌, inl, inr, length, none, some, true, ℕ, ◌%◌,
  ◌+◌, ◌/◌, ◌==◌, ◌||◌, ◌∷◌, ◌≡◌, ◌≢◌,
}
use tenant_cni.Ipam.Address.{TenantIpam}
use tenant_cni.Ipam.Store.{Contents, Disk, directory, holds, json}
use tenant_cni.Ipam.TenantStore.{TenantStore, empty_tenant}
use tenant_cni.Ipam.Types.{Bridge, TenantData, Vxlan}
use tenant_cni.Net.Addr.{Ipv6Text, ipv4}
use tenant_cni.Net.Decimal.{pos}
use tenant_cni.Net.RoundTrip.{IsBytes}

-- No text is that of an IPv6 address.
abbrev pub no_ipv6_text : Ipv6Text
no_ipv6_text = record { parse = λ _. none; format = λ _ _. [] }

-- One more, with the carry out of the first byte.
add_one : List ℕ → List ℕ × ℕ
add_one [] = ([], 1)
add_one (x ∷ xs) = let (ys, carry) = add_one xs in ((x + carry) % 256 ∷ ys, (x + carry) / 256)

-- The next address; nil on what is no address.
unfoldable pub next_address : List ℕ → List ℕ
unfolding add_one
next_address ip = if length ip == 4 || length ip == 16 then (add_one ip).0 else []

add_one-IsBytes : (ip : List ℕ) → IsBytes (add_one ip).0
unfolding add_one
add_one-IsBytes [] = tt
add_one-IsBytes (x ∷ xs) = (omega arith, add_one-IsBytes xs)

pub next_address-IsBytes : (ip : List ℕ) → IsBytes (next_address ip)
unfolding next_address
next_address-IsBytes ip = elim (Bool-cases (length ip == 4 || length ip == 16)) [
  | inl is ↦ rw (is) (add_one-IsBytes ip)
  | inr other ↦ rw (other) tt
]

pub next_address_nil : (ip : List ℕ) → length ip ≢ 4 → length ip ≢ 16 → next_address ip ≡ []
unfolding next_address
next_address_nil ip a b = ground (arith, a, b)

abbrev pub the_bridge : Bridge
the_bridge = record { name = bytes "br-red"; gateway = ipv4 184811777 }

abbrev pub the_vxlan : Vxlan
the_vxlan = record {
  vtep_name = bytes "red.7";
  vtep_ip = bytes "11.4.1.0";
  vtep_mac = bytes "02:00:00:00:00:01";
  vni = pos 7;
}

-- A tenant of four addresses, none of them given out.
abbrev pub small_tenant : TenantData
small_tenant = record {
  tenant_name = bytes "red";
  tenant_prefix = pos 30;
  tenant_cidr = bytes "11.4.1.0/30";
  bridge = some the_bridge;
  vxlan = some the_vxlan;
  ips = [];
  last = bytes "11.4.1.1";
}

abbrev pub good_disk : {D : Type 0} → Contents D → Disk D
good_disk file = record {
  entry = directory;
  makes = true;
  lock_error = none;
  file = file;
  opens = true;
  writes = true;
}

abbrev pub store_of : TenantData → TenantStore
store_of t = record {
  mutex = true;
  directory = bytes "red";
  value = empty_tenant;
  data_file = bytes "red.json";
  disk = good_disk (holds (json t));
}

abbrev pub ipam_of : TenantData → TenantIpam
ipam_of t = record { tenant_name = bytes "red"; tenant_store = store_of t }
