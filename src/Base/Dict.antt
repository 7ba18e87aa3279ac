-- ===== src/Base/Dict.antt =====
-- A Go map with string keys, as an association list. `range` visits a map in an order that the
-- language leaves open: the order of the list stands for it.
use mathlib.Core.Path.{◌≡◌, refl}
use mathlib.Core.Logic.{◌≢◌}
use mathlib.Core.Bool.{Bool, true, false}
use mathlib.Core.Option.{Option, none, some}
use mathlib.Core.List.{List, [], ◌∷◌}
use native.Mathlib.Omega.{arith}
use tenant_cni.Base.Tests.{if◌then◌else◌}
use tenant_cni.Base.Bytes.{Text, text_eq}

abbrev pub Dict {ℓ} : Type ℓ → Type ℓ
Dict V = List (Text × V)

module _ {ℓ} {V : Type ℓ} where
  abbrev pub lookup : Text → Dict V → Option V
  lookup k [] = none
  lookup k ((j, v) ∷ m) = if text_eq k j then some v else lookup k m

  -- `_, ok := m[k]`
  abbrev pub contains : Text → Dict V → Bool
  contains k m = elim (lookup k m) [ none ↦ false | some _ ↦ true ]

  -- `m[k] = v`
  unfoldable pub insert : Text → V → Dict V → Dict V
  insert k v [] = (k, v) ∷ []
  insert k v ((j, w) ∷ m) = if text_eq k j then (k, v) ∷ m else (j, w) ∷ insert k v m

  -- `delete(m, k)`
  unfoldable pub erase : Text → Dict V → Dict V
  erase k [] = []
  erase k ((j, w) ∷ m) = if text_eq k j then m else (j, w) ∷ erase k m

  -- A map holds each key once.
  abbrev pub NodupKeys : Dict V → Type ℓ
  NodupKeys [] = Unit
  NodupKeys ((k, _) ∷ m) = (lookup k m ≡ none) × NodupKeys m

  pub lookup-insert :
      (j k : Text) (v : V) (m : Dict V)
      → lookup j (insert k v m) ≡ (if text_eq j k then some v else lookup j m)
  unfolding insert
  lookup-insert j k v [] = refl
  lookup-insert j k v (_ ∷ m) = ground (arith, lookup-insert j k v m)

  pub lookup-insert_self : (k : Text) (v : V) (m : Dict V) → lookup k (insert k v m) ≡ some v
  lookup-insert_self k v m = ground (arith, lookup-insert k k v m)

  pub lookup-insert_ne :
      (j k : Text) (v : V) (m : Dict V) → j ≢ k → lookup j (insert k v m) ≡ lookup j m
  lookup-insert_ne j k v m h = ground (arith, lookup-insert j k v m)

  pub lookup-erase_ne : (j k : Text) (m : Dict V) → j ≢ k → lookup j (erase k m) ≡ lookup j m
  unfolding erase
  lookup-erase_ne j k [] h = refl
  lookup-erase_ne j k (_ ∷ m) h = ground (arith, lookup-erase_ne j k m h)

  pub lookup-erase_self : (k : Text) (m : Dict V) → NodupKeys m → lookup k (erase k m) ≡ none
  unfolding erase
  lookup-erase_self k [] u = refl
  lookup-erase_self k (_ ∷ m) (fresh, u) = ground (arith, lookup-erase_self k m u)

  pub insert-NodupKeys : (k : Text) (v : V) (m : Dict V) → NodupKeys m → NodupKeys (insert k v m)
  unfolding insert
  insert-NodupKeys k v [] u = (refl, tt)
  insert-NodupKeys k v ((j, _) ∷ m) (fresh, u) =
      ground (arith, insert-NodupKeys k v m u, lookup-insert j k v m)

  pub erase-NodupKeys : (k : Text) (m : Dict V) → NodupKeys m → NodupKeys (erase k m)
  unfolding erase
  erase-NodupKeys k [] u = tt
  erase-NodupKeys k ((j, _) ∷ m) (fresh, u) =
      ground (arith, erase-NodupKeys k m u, lookup-erase_ne j k m)

  pub erase-insert_new :
      (k : Text) (v : V) (m : Dict V) → lookup k m ≡ none → erase k (insert k v m) ≡ m
  unfolding insert erase
  erase-insert_new k v [] h = ground arith
  erase-insert_new k v (_ ∷ m) h = ground (arith, erase-insert_new k v m, h)
