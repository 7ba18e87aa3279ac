-- ===== src/Ipam/Address/Uniqueness.antt =====
-- The entries of a tenant's address map: each address once, each container once.
use tenant_cni.Base.{Text, [], arith, none, refl, some, ◌∷◌, ◌≡◌, ◌≢◌}
use tenant_cni.Base.Dict.{Dict, NodupKeys, erase, insert, lookup}
use tenant_cni.Ipam.TenantStore.{key_of_id}
use tenant_cni.Ipam.Types.{ContainerNetInfo}

-- No two entries have one container ID.
abbrev pub UniqueIds : Dict ContainerNetInfo → Type 0
UniqueIds [] = Unit
UniqueIds ((_, info) ∷ ips) = (key_of_id info.id ips ≡ none) × UniqueIds ips

pub key_of_id-insert_self :
    (key : Text) (info : ContainerNetInfo) (ips : Dict ContainerNetInfo)
    → lookup key ips ≡ none
    → key_of_id info.id ips ≡ none
    → key_of_id info.id (insert key info ips) ≡ some key
unfolding key_of_id insert
key_of_id-insert_self key info [] h u = ground arith
key_of_id-insert_self key info ((j, other) ∷ ips) h u =
    ground (arith, key_of_id-insert_self key info ips)

pub key_of_id-insert_ne :
    (id key : Text) (info : ContainerNetInfo) (ips : Dict ContainerNetInfo)
    → lookup key ips ≡ none
    → info.id ≢ id
    → key_of_id id (insert key info ips) ≡ key_of_id id ips
unfolding key_of_id insert
key_of_id-insert_ne id key info [] h u = ground arith
key_of_id-insert_ne id key info ((j, other) ∷ ips) h u =
    ground (arith, key_of_id-insert_ne id key info ips)

pub insert-UniqueIds :
    (key : Text) (info : ContainerNetInfo) (ips : Dict ContainerNetInfo)
    → lookup key ips ≡ none
    → key_of_id info.id ips ≡ none
    → UniqueIds ips
    → UniqueIds (insert key info ips)
unfolding insert key_of_id
insert-UniqueIds key info [] h u v = (refl, tt)
insert-UniqueIds key info ((j, other) ∷ ips) h u v =
    ground (arith, insert-UniqueIds key info ips, key_of_id-insert_ne other.id key info ips)

key_of_id-erase-none :
    (id key : Text) (ips : Dict ContainerNetInfo)
    → key_of_id id ips ≡ none
    → key_of_id id (erase key ips) ≡ none
unfolding key_of_id erase
key_of_id-erase-none id key [] h = refl
key_of_id-erase-none id key ((j, other) ∷ ips) h = ground (arith, key_of_id-erase-none id key ips)

pub erase-UniqueIds :
    (key : Text) (ips : Dict ContainerNetInfo) → UniqueIds ips → UniqueIds (erase key ips)
unfolding erase
erase-UniqueIds key [] u = tt
erase-UniqueIds key ((j, other) ∷ ips) u =
    ground (arith, erase-UniqueIds key ips, key_of_id-erase-none other.id key ips)

pub key_of_id-lookup :
    (id key : Text) (ips : Dict ContainerNetInfo)
    → key_of_id id ips ≡ some key
    → lookup key ips ≢ none
unfolding key_of_id
key_of_id-lookup id key [] h = λ e. cc
key_of_id-lookup id key ((j, other) ∷ ips) h = ground (arith, key_of_id-lookup id key ips)

-- The container whose entry is erased is not found any more.
pub key_of_id-erase :
    (id key : Text) (ips : Dict ContainerNetInfo)
    → UniqueIds ips
    → NodupKeys ips
    → key_of_id id ips ≡ some key
    → key_of_id id (erase key ips) ≡ none
unfolding key_of_id erase
key_of_id-erase id key [] u v h = refl
key_of_id-erase id key ((j, other) ∷ ips) u v h =
    ground (arith, key_of_id-erase id key ips, key_of_id-lookup id key ips)
