-- ===== src/Base/Sums.antt =====
-- The sum of the counts of a map whose keys pass a test.
use Prim.Native.Nat.{ℕ, ◌+◌}
use mathlib.Core.Path.{◌≡◌, refl, ap}
use mathlib.Core.Logic.{inl, inr}
use mathlib.Core.Bool.{Bool}
use mathlib.Core.List.{[], ◌∷◌}
use native.Mathlib.Omega.{arith}
use go_discord_caller.Base.Tests.{
  if◌then◌else◌, Bool-cases, Eq, nat_eq, string_eq, pair_eq, nat_zero, bool_zero, list_zero,
  string_zero,
}
use go_discord_caller.Base.Maps.{Map, lookup, insert, get}

module _ {ℓ} {K : Type ℓ} where
  unfoldable pub weigh : (K → Bool) → Map K ℕ → ℕ
  weigh f [] = 0
  weigh f ((k, v) ∷ m) = (if f k then v else 0) + weigh f m

  get-cons :
      ⦃e : Eq K⦄ (k j : K) (v : ℕ) (m : Map K ℕ)
      → get k ((j, v) ∷ m) ≡ (if e.beq j k then v else get k m)
  unfolding get lookup
  get-cons k j v m = ground arith

  get-nil : ⦃e : Eq K⦄ (k : K) → get {V = ℕ} k [] ≡ 0
  unfolding get lookup
  get-nil k = refl

  -- An addition to one count adds to the sum if its key passes the test.
  pub weigh-insert :
      ⦃e : Eq K⦄ (f : K → Bool) (k : K) (n : ℕ) (m : Map K ℕ)
      → weigh f (insert k (get k m + n) m) ≡ (if f k then n else 0) + weigh f m
  unfolding weigh insert
  weigh-insert f k n [] = ground (arith, get-nil k)
  weigh-insert ⦃e⦄ f k n ((j, v) ∷ m) = elim (Bool-cases (e.beq j k)) [
    | inl t ↦
        let same : f j ≡ f k = ap f ((e.beq_iff j k).0 t) in
        ground (arith, t, same, get-cons k j v m)
    | inr t ↦ ground (arith, t, get-cons k j v m, weigh-insert f k n m)
  ]
