-- ===== src/Base/Lists.antt =====
-- Lists measured by native numbers, under the library's names.
use Prim.Native.Nat.{ℕ, zero, suc, ◌+◌}
use mathlib.Core.Path.{◌≡◌, sym, ap, subst, ◌∙◌}
use mathlib.Core.Logic.{◌≢◌, ◌⊎◌, inl, inr}
use mathlib.Core.List.{List, [], ◌∷◌, ◌++◌, map}
use native.Mathlib.Omega.{arith}

module _ {ℓ} {A : Type ℓ} where
  abbrev pub length : List A → ℕ
  length [] = 0
  length (x ∷ xs) = suc (length xs)

  abbrev pub take : ℕ → List A → List A
  take zero xs = []
  take (suc n) [] = []
  take (suc n) (x ∷ xs) = x ∷ take n xs

  abbrev pub drop : ℕ → List A → List A
  drop zero xs = xs
  drop (suc n) [] = []
  drop (suc n) (x ∷ xs) = drop n xs

  pub length-append : (xs ys : List A) → length (xs ++ ys) ≡ length xs + length ys
  length-append [] ys = omega arith
  length-append (x ∷ xs) ys = omega (arith, length-append xs ys)

-- A predicate on every element, computing to a tuple.
abbrev pub All {ℓ κ} : {A : Type ℓ} → (A → Type κ) → List A → Type κ
All P [] = Unit
All P (x ∷ xs) = P x × All P xs

-- Membership that can be matched on.
pub data Elem {ℓ} {A : Type ℓ} (a : A) : List A → Type ℓ where
  here : {x : A} {xs : List A} → a ≡ x → Elem a (x ∷ xs)
  there : {x : A} {xs : List A} → Elem a xs → Elem a (x ∷ xs)

pub Elem-cons {ℓ} : {A : Type ℓ} {a x : A} {xs : List A} → Elem a (x ∷ xs) → (a ≡ x) ⊎ Elem a xs
Elem-cons (here e) = inl e
Elem-cons (there m) = inr m

-- No two keys are equal.
abbrev pub Distinct : List ℕ → Type 0
Distinct [] = Unit
Distinct (x ∷ xs) = All (λ y. x ≢ y) xs × Distinct xs

pub Elem-map {ℓ κ} :
    {A : Type ℓ} {B : Type κ} (f : A → B) {a : A} (xs : List A) → Elem a xs → Elem (f a) (map f xs)
Elem-map f [] m = elim m [ ]
Elem-map f (x ∷ xs) (here e) = here (ap f e)
Elem-map f (x ∷ xs) (there m) = there (Elem-map f xs m)

pub Elem-All {ℓ κ} :
    {A : Type ℓ} (P : A → Type κ) {a : A} (xs : List A) → Elem a xs → All P xs → P a
Elem-All P [] m h = elim m [ ]
Elem-All P (x ∷ xs) (here e) h = subst P (sym e) h.0
Elem-All P (x ∷ xs) (there m) h = Elem-All P xs m h.1

-- The element with a given key is the only one with it.
pub Distinct-key {ℓ} :
    {A : Type ℓ} (key : A → ℕ) {a b : A} (xs : List A)
    → Distinct (map key xs)
    → Elem a xs
    → Elem b xs
    → key a ≡ key b
    → a ≡ b
Distinct-key key [] d m n e = elim m [ ]
Distinct-key key (x ∷ xs) d (here p) (here q) e = p ∙ sym q
Distinct-key key (x ∷ xs) d (here p) (there n) e =
    absurd (Elem-All _ _ (Elem-map key xs n) d.0 (ap key (sym p) ∙ e))
Distinct-key key (x ∷ xs) d (there m) (here q) e =
    absurd (Elem-All _ _ (Elem-map key xs m) d.0 (ap key (sym q) ∙ sym e))
Distinct-key key (x ∷ xs) d (there m) (there n) e = Distinct-key key xs d.1 m n e
