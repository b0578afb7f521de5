-- ===== src/Base/Restore.antt =====
-- When a sequence of map writes rebuilds a map.
use mathlib.Core.Path.{◌≡◌, refl, sym, ap, subst, ◌∙◌}
use mathlib.Core.Logic.{◌⊎◌, inl, inr}
use mathlib.Core.Option.{Option, none, some}
use mathlib.Core.List.{List, [], ◌∷◌, ◌++◌, map}
use native.Mathlib.Omega.{arith}
use go_discord_caller.Base.Tests.{
  if◌then◌else◌, Bool-cases, Option-cases, Eq, nat_eq, string_eq, pair_eq, nat_zero, bool_zero,
  list_zero, string_zero,
}
use go_discord_caller.Base.Lists.{Elem, here, there, Elem-cons}
use go_discord_caller.Base.Maps.{
  Map, lookup, insert, delete, lookup-insert, lookup-delete, lookup-insert_self,
}

-- The lists that `f` gives for the elements, one after another.
abbrev pub gather {ℓ κ} : {A : Type ℓ} {B : Type κ} → (A → List B) → List A → List B
gather f [] = []
gather f (x ∷ xs) = f x ++ gather f xs

module _ {ℓ} {A : Type ℓ} where
  pub Elem-append : {a : A} (xs ys : List A) → Elem a (xs ++ ys) → Elem a xs ⊎ Elem a ys
  Elem-append [] ys m = inr m
  Elem-append (x ∷ xs) ys (here e) = inl (here e)
  Elem-append (x ∷ xs) ys (there m) = elim (Elem-append xs ys m) [
    | inl i ↦ inl (there i)
    | inr i ↦ inr i
  ]

  pub Elem-append_left : {a : A} (xs ys : List A) → Elem a xs → Elem a (xs ++ ys)
  Elem-append_left [] ys m = elim m [ ]
  Elem-append_left (x ∷ xs) ys (here e) = here e
  Elem-append_left (x ∷ xs) ys (there m) = there (Elem-append_left xs ys m)

  pub Elem-append_right : {a : A} (xs ys : List A) → Elem a ys → Elem a (xs ++ ys)
  Elem-append_right [] ys m = m
  Elem-append_right (x ∷ xs) ys m = there (Elem-append_right xs ys m)

pub Elem-gather {ℓ κ} :
    {A : Type ℓ} {B : Type κ} (f : A → List B) {b : B} (xs : List A)
    → Elem b (gather f xs)
    → (a : A) × Elem a xs × Elem b (f a)
Elem-gather f [] m = elim m [ ]
Elem-gather f (x ∷ xs) m = elim (Elem-append (f x) (gather f xs) m) [
  | inl i ↦ (x, here refl, i)
  | inr i ↦ let (a, j, k) = Elem-gather f xs i in (a, there j, k)
]

pub Elem-gather_of {ℓ κ} :
    {A : Type ℓ} {B : Type κ} (f : A → List B) {a : A} {b : B} (xs : List A)
    → Elem a xs
    → Elem b (f a)
    → Elem b (gather f xs)
Elem-gather_of f [] m i = elim m [ ]
Elem-gather_of f {a} {b} (x ∷ xs) (here e) i =
    Elem-append_left (f x) (gather f xs) (subst (λ y. Elem b (f y)) e i)
Elem-gather_of f (x ∷ xs) (there m) i =
    Elem-append_right (f x) (gather f xs) (Elem-gather_of f xs m i)

pub Elem-map_inv {ℓ κ} :
    {A : Type ℓ} {B : Type κ} (f : A → B) {b : B} (xs : List A)
    → Elem b (map f xs)
    → (a : A) × Elem a xs × (b ≡ f a)
Elem-map_inv f [] m = elim m [ ]
Elem-map_inv f (x ∷ xs) (here e) = (x, here refl, e)
Elem-map_inv f (x ∷ xs) (there m) = let (a, i, e) = Elem-map_inv f xs m in (a, there i, e)

-- What `f` gives for the elements for which it gives something.
abbrev pub pick {ℓ κ} : {A : Type ℓ} {B : Type κ} → (A → Option B) → List A → List B
pick f [] = []
pick f (x ∷ xs) = elim (f x) [ none ↦ pick f xs | some b ↦ b ∷ pick f xs ]

pub Elem-pick {ℓ κ} :
    {A : Type ℓ} {B : Type κ} (f : A → Option B) {b : B} (xs : List A)
    → Elem b (pick f xs)
    → (a : A) × Elem a xs × (f a ≡ some b)
Elem-pick f [] m = elim m [ ]
Elem-pick f {b} (x ∷ xs) m = elim (Option-cases (f x)) [
  | inl n ↦ let (a, i, e) = Elem-pick f xs (rw (n, pick) at m) in (a, there i, e)
  | inr (c, s) ↦ elim (Elem-cons (rw (s, pick) at m)) [
    | inl e ↦ (x, here refl, s ∙ ap some (sym e))
    | inr i ↦ let (a, j, e) = Elem-pick f xs i in (a, there j, e)
  ]
]

pub Elem-pick_of {ℓ κ} :
    {A : Type ℓ} {B : Type κ} (f : A → Option B) {a : A} {b : B} (xs : List A)
    → Elem a xs
    → f a ≡ some b
    → Elem b (pick f xs)
Elem-pick_of f [] m e = elim m [ ]
Elem-pick_of f {a} {b} (x ∷ xs) (here p) e = rw (ap f (sym p) ∙ e, pick) (here refl)
Elem-pick_of f (x ∷ xs) (there m) e = elim (Option-cases (f x)) [
  | inl n ↦ rw (n, pick) (Elem-pick_of f xs m e)
  | inr (c, s) ↦ rw (s, pick) (there (Elem-pick_of f xs m e))
]

module _ {ℓ κ} {K : Type ℓ} {V : Type κ} ⦃e : Eq K⦄ where
  -- No key occurs twice, as in every Go map.
  abbrev pub Keyed : Map K V → Type κ
  Keyed [] = Unit
  Keyed ((k, v) ∷ m) = (lookup k m ≡ none) × Keyed m

  unfoldable pub inserts : List (K × V) → Map K V → Map K V
  inserts [] m = m
  inserts ((k, v) ∷ xs) m = inserts xs (insert k v m)

  pub inserts-append :
      (xs ys : List (K × V)) (m : Map K V) → inserts (xs ++ ys) m ≡ inserts ys (inserts xs m)
  unfolding inserts
  inserts-append [] ys m = refl
  inserts-append ((k, v) ∷ xs) ys m = inserts-append xs ys (insert k v m)

  pub lookup-cons :
      (k j : K) (v : V) (m : Map K V)
      → lookup k ((j, v) ∷ m) ≡ (if e.beq j k then some v else lookup k m)
  unfolding lookup
  lookup-cons k j v m = refl

  pub lookup-nil : (k : K) → lookup {V = V} k [] ≡ none
  unfolding lookup
  lookup-nil k = refl

  pub Elem-lookup : (k : K) (v : V) (m : Map K V) → lookup k m ≡ some v → Elem (k, v) m
  Elem-lookup k v [] h = absurd (ground (arith, h, lookup-nil k))
  Elem-lookup k v ((j, w) ∷ m) h = elim (Bool-cases (e.beq j k)) [
    | inl t ↦
        let same : j ≡ k = (e.beq_iff j k).0 t in
        let val : w ≡ v = ground (arith, lookup-cons k j w m, t, h) in
        here (λ i. (sym same i, sym val i))
    | inr f ↦ there (Elem-lookup k v m (ground (arith, lookup-cons k j w m, f, h)))
  ]

  pub lookup-Elem : (k : K) (v : V) (m : Map K V) → Keyed m → Elem (k, v) m → lookup k m ≡ some v
  lookup-Elem k v [] d i = elim i [ ]
  lookup-Elem k v ((j, w) ∷ m) d (here p) =
      ground (arith, lookup-cons k j w m, ap (λ x. x.0) p, ap (λ x. x.1) p, e.beq_iff j k)
  lookup-Elem k v ((j, w) ∷ m) d (there i) =
      let ih = lookup-Elem k v m d.1 i in
      ground (arith, lookup-cons k j w m, ih, d.0, e.beq_iff j k)

  pub insert-Keyed : (k : K) (v : V) (m : Map K V) → Keyed m → Keyed (insert k v m)
  unfolding insert
  insert-Keyed k v [] d = (lookup-nil k, tt)
  insert-Keyed k v ((j, w) ∷ m) d = elim (Bool-cases (e.beq j k)) [
    | inl t ↦ rw (t, insert) (ap (λ x. lookup x m) (sym ((e.beq_iff j k).0 t)) ∙ d.0, d.1)
    | inr f ↦
        rw (f, insert)
          (
            ground (arith, lookup-insert k j v m, f, d.0, e.beq_iff k j, e.beq_iff j k),
            insert-Keyed k v m d.1,
          )
  ]

  pub delete-Keyed : (k : K) (m : Map K V) → Keyed m → Keyed (delete k m)
  unfolding delete
  delete-Keyed k [] d = tt
  delete-Keyed k ((j, w) ∷ m) d = elim (Bool-cases (e.beq j k)) [
    | inl t ↦ rw (t, delete) (delete-Keyed k m d.1)
    | inr f ↦ rw (f, delete) (ground (arith, lookup-delete k j m, d.0), delete-Keyed k m d.1)
  ]

  lookup-inserts :
      (k : K) (v : V) (xs : List (K × V)) (m : Map K V)
      → lookup k (inserts xs m) ≡ some v
      → (lookup k m ≡ some v) ⊎ Elem (k, v) xs
  unfolding inserts
  lookup-inserts k v [] m h = inl h
  lookup-inserts k v ((j, w) ∷ xs) m h = elim (lookup-inserts k v xs (insert j w m) h) [
    | inr i ↦ inr (there i)
    | inl g ↦ elim (Bool-cases (e.beq j k)) [
      | inl t ↦
          let same : j ≡ k = (e.beq_iff j k).0 t in
          let val : w ≡ v = ground (arith, lookup-insert j k w m, t, g) in
          inr (here (λ i. (sym same i, sym val i)))
      | inr f ↦ inl (ground (arith, lookup-insert j k w m, f, g))
    ]
  ]

  inserts_kept :
      (k : K) (v : V) (xs : List (K × V)) (m : Map K V)
      → lookup k m ≡ some v
      → (w : V) × (lookup k (inserts xs m) ≡ some w)
  unfolding inserts
  inserts_kept k v [] m h = (v, h)
  inserts_kept k v ((j, w) ∷ xs) m h = elim (Bool-cases (e.beq j k)) [
    | inl t ↦ inserts_kept k w xs (insert j w m) (ground (arith, lookup-insert j k w m, t))
    | inr f ↦ inserts_kept k v xs (insert j w m) (ground (arith, lookup-insert j k w m, f, h))
  ]

  inserts_has :
      (k : K) (v : V) (xs : List (K × V)) (m : Map K V)
      → Elem (k, v) xs
      → (w : V) × (lookup k (inserts xs m) ≡ some w)
  unfolding inserts
  inserts_has k v [] m i = elim i [ ]
  inserts_has k v ((j, w) ∷ xs) m (here p) = inserts_kept k w xs (insert j w m) (
      subst (λ x. lookup x (insert j w m) ≡ some w) (sym (ap (λ x. x.0) p))
        (lookup-insert_self j w m))
  inserts_has k v ((j, w) ∷ xs) m (there i) = inserts_has k v xs (insert j w m) i

  -- Writes that agree with a map and cover it rebuild it.
  pub lookup-inserts_all :
      (m : Map K V) (xs : List (K × V))
      → ((k : K) (v : V) → Elem (k, v) xs → lookup k m ≡ some v)
      → ((k : K) (v : V) → lookup k m ≡ some v → Elem (k, v) xs)
      → (k : K) → lookup k (inserts xs []) ≡ lookup k m
  lookup-inserts_all m xs sound complete k = elim (Option-cases (lookup k (inserts xs []))) [
    | inl n ↦ elim (Option-cases (lookup k m)) [
      | inl n' ↦ n ∙ sym n'
      | inr (v, h) ↦
          let (w, g) = inserts_has k v xs [] (complete k v h) in absurd (ground (arith, n, g))
    ]
    | inr (v, h) ↦ elim (lookup-inserts k v xs [] h) [
      | inl g ↦ absurd (ground (arith, g, lookup-nil k))
      | inr i ↦ h ∙ sym (sound k v i)
    ]
  ]
