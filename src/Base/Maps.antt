-- ===== src/Base/Maps.antt =====
-- Go maps as association lists. The order of the list is the order in which `range` happens to
-- visit the map, so a statement about every list is one about every iteration order.
use mathlib.Core.Path.{◌≡◌, refl}
use mathlib.Core.Logic.{◌⊎◌}
use mathlib.Core.Option.{Option, none, some}
use mathlib.Core.List.{List, [], ◌∷◌}
use native.Mathlib.Omega.{arith}
use go_discord_caller.Base.Tests.{if◌then◌else◌, Eq, nat_eq, Zero, nat_zero, bool_zero, list_zero}

abbrev pub Map {ℓ κ} : Type ℓ → Type κ → Type (ℓ ⊔ κ)
Map K V = List (K × V)

module _ {ℓ κ} {K : Type ℓ} {V : Type κ} ⦃e : Eq K⦄ where
  -- `v, ok := m[k]`
  unfoldable pub lookup : K → Map K V → Option V
  lookup k [] = none
  lookup k ((j, v) ∷ m) = if e.beq j k then some v else lookup k m

  -- `m[k] = v`
  unfoldable pub insert : K → V → Map K V → Map K V
  insert k v [] = (k, v) ∷ []
  insert k v ((j, w) ∷ m) = if e.beq j k then (k, v) ∷ m else (j, w) ∷ insert k v m

  -- `delete(m, k)`
  unfoldable pub delete : K → Map K V → Map K V
  delete k [] = []
  delete k ((j, w) ∷ m) = if e.beq j k then delete k m else (j, w) ∷ delete k m

  -- `m[k]` used as a value: a missing key reads as the zero value.
  unfoldable pub get : ⦃z : Zero V⦄ → K → Map K V → V
  unfolding lookup
  get ⦃z⦄ k m = elim (lookup k m) [ none ↦ z.zero_value | some v ↦ v ]

  pub lookup-insert :
      (k j : K) (v : V) (m : Map K V)
      → lookup j (insert k v m) ≡ (if e.beq k j then some v else lookup j m)
  unfolding lookup insert
  lookup-insert k j v [] = refl
  lookup-insert k j v ((i, w) ∷ m) =
      ground (arith, e.beq_iff k j, e.beq_iff i k, e.beq_iff i j, lookup-insert k j v m)

  pub lookup-delete :
      (k j : K) (m : Map K V) → lookup j (delete k m) ≡ (if e.beq k j then none else lookup j m)
  unfolding lookup delete
  lookup-delete k j [] = ground arith
  lookup-delete k j ((i, w) ∷ m) =
      ground (arith, e.beq_iff k j, e.beq_iff i k, e.beq_iff i j, lookup-delete k j m)

  pub get-insert :
      ⦃z : Zero V⦄ (k j : K) (v : V) (m : Map K V)
      → get j (insert k v m) ≡ (if e.beq k j then v else get j m)
  unfolding get
  get-insert k j v m = ground (arith, lookup-insert k j v m)

  pub lookup-insert_inv :
      (k j : K) (v : V) (m : Map K V) {x : V}
      → lookup j (insert k v m) ≡ some x
      → ((k ≡ j) × (x ≡ v)) ⊎ (lookup j m ≡ some x)
  lookup-insert_inv k j v m h = ground (arith, lookup-insert k j v m, e.beq_iff k j, h)

  pub lookup-insert_self : (k : K) (v : V) (m : Map K V) → lookup k (insert k v m) ≡ some v
  lookup-insert_self k v m = ground (arith, lookup-insert k k v m, (e.beq_iff k k).1 refl)
