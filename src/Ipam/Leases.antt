-- ===== src/Ipam/Leases.antt =====
-- What a tenant's address pool promises, whatever its representation: a partial map from the IDs of
-- containers to addresses, and the steps that it may take.
use mathlib.Core.Path.{subst}
use tenant_cni.Base.{Option, Text, arith, if◌then◌else◌, none, some, text_dec, text_eq, ◌≡◌, ◌≢◌}

-- The address of each container; none where it has none.
abbrev pub Leases : Type 0
Leases = Text → Option Text

unfoldable pub grant : Text → Text → Leases → Leases
grant id addr l other = if text_eq other id then some addr else l other

unfoldable pub revoke : Text → Leases → Leases
revoke id l other = if text_eq other id then none else l other

abbrev pub IsFree : Text → Leases → Type 0
IsFree addr l = (id : Text) → l id ≢ some addr

-- A grant to a container that has none leaves the others theirs, and so does what is taken from another.
pub grant_keeps :
    (id addr : Text) (l : Leases) (holder x : Text)
    → l id ≡ none
    → l holder ≡ some x
    → grant id addr l holder ≡ some x
unfolding grant
grant_keeps id addr l holder x fresh h = ground (arith, fresh, h)

pub revoke_keeps :
    (id : Text) (l : Leases) (holder x : Text)
    → holder ≢ id
    → l holder ≡ some x
    → revoke id l holder ≡ some x
unfolding revoke
revoke_keeps id l holder x apart h = ground (arith, apart, h)

-- A pool grants a free address that is allowed to a container that has none, takes an address back, or
-- does nothing.
pub data Step (Allowed : Text → Type 0) (l : Leases) : Leases → Type 0 where
  granted :
      (id addr : Text) (l' : Leases)
      → l id ≡ none
      → IsFree addr l
      → Allowed addr
      → l' ≡ grant id addr l
      → Step Allowed l l'
  revoked : (id : Text) (l' : Leases) → l' ≡ revoke id l → Step Allowed l l'
  kept : (l' : Leases) → l' ≡ l → Step Allowed l l'

-- Any number of steps.
pub data Steps (Allowed : Text → Type 0) (l : Leases) : Leases → Type 0 where
  none_yet : (l' : Leases) → l' ≡ l → Steps Allowed l l'
  then_step : (m l' : Leases) → Steps Allowed l m → Step Allowed m l' → Steps Allowed l l'

-- What holds of a pool at all times: no two containers have one address, and each address is allowed.
pub record IsExclusive (Allowed : Text → Type 0) (l : Leases) : Type 0 where
  pub one_holder : (a b addr : Text) → l a ≡ some addr → l b ≡ some addr → a ≡ b
  pub allowed : (a addr : Text) → l a ≡ some addr → Allowed addr

module _ {Allowed : Text → Type 0} where
  grant-IsExclusive :
      (id addr : Text) (l : Leases)
      → l id ≡ none
      → IsFree addr l
      → Allowed addr
      → IsExclusive Allowed l
      → IsExclusive Allowed (grant id addr l)
  unfolding grant
  grant-IsExclusive id addr l fresh free good e = record {
    one_holder = λ a b x p q. ground (arith, e.one_holder a b x, free a, free b, p, q);
    allowed = λ a x p. elim (text_dec a id) [
      | yes same ↦ subst Allowed (ground (arith, p, same)) good
      | no other ↦ e.allowed a x (ground (arith, p, other))
    ];
  }

  revoke-IsExclusive :
      (id : Text) (l : Leases) → IsExclusive Allowed l → IsExclusive Allowed (revoke id l)
  unfolding revoke
  revoke-IsExclusive id l e = record {
    one_holder = λ a b x p q. ground (arith, e.one_holder a b x, p, q);
    allowed = λ a x p. e.allowed a x (ground (arith, p));
  }

  pub Step-IsExclusive :
      {l l' : Leases} → Step Allowed l l' → IsExclusive Allowed l → IsExclusive Allowed l'
  Step-IsExclusive {l} (granted id addr l' fresh free good same) e =
      rw (same) (grant-IsExclusive id addr l fresh free good e)
  Step-IsExclusive {l} (revoked id l' same) e = rw (same) (revoke-IsExclusive id l e)
  Step-IsExclusive (kept l' same) e = rw (same) e

  pub Steps-IsExclusive :
      {l l' : Leases} → Steps Allowed l l' → IsExclusive Allowed l → IsExclusive Allowed l'
  Steps-IsExclusive (none_yet l' same) e = rw (same) e
  Steps-IsExclusive (then_step m l' before step) e =
      Step-IsExclusive step (Steps-IsExclusive before e)
