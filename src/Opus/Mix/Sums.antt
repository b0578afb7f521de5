-- ===== src/Opus/Mix/Sums.antt =====
-- internal/opus/mixer.go: `mixAndEncode` against sums of whole numbers, and in any order.
use mathlib.Core.List.Permᴰ.{nil, cons, swap, trans}
use mathlib.Core.List.{Permᴰ, Perm}
use mathlib.Core.Logic.{∥∥₁_elim}
use go_discord_caller.Base.{
  ltb, leb, if◌then◌else◌, nat_eq, string_eq, pair_eq, nat_zero, bool_zero, list_zero, string_zero,
  length, All, ℕ, zero, suc, ◌+◌, ◌-◌, ◌*◌, ◌/◌, ◌^◌, ◌<◌, min, ◌≡◌, refl, sym, ap, subst, ◌∙◌,
  List, [], ◌∷◌, arith,
}
use go_discord_caller.Opus.Mix.{
  int32_of, add32, mul32, shift15, clamp16, scale_bits, scale_of, accumulate, accumulate_all, zeros,
  attenuate, mix,
}

-- The reference for two sources, without words of 32 bits: `up` and `down` are the parts of the sum
-- above and below zero.
unfoldable pub up : ℕ → ℕ
up x = if ltb x (2 ^ 15) then x else 0

unfoldable pub down : ℕ → ℕ
down x = if ltb x (2 ^ 15) then 0 else 2 ^ 16 - x

-- The sum of two samples times 23170/2¹⁵, rounded down, at the nearest end of the range if outside.
unfoldable pub scaled_pair : ℕ → ℕ → ℕ
unfolding up down
scaled_pair x y =
    if leb (down x + down y) (up x + up y)
    then min (2 ^ 15 - 1) ((up x + up y - (down x + down y)) * 23170 / 2 ^ 15)
    else 2 ^ 16 - min (2 ^ 15) (((down x + down y - (up x + up y)) * 23170 + (2 ^ 15 - 1)) / 2 ^ 15)

scale_of_two : scale_of 2 ≡ 23170
unfolding scale_of scale_bits
scale_of_two = refl

pair_lem :
    (x y : ℕ)
    → x < 2 ^ 16
    → y < 2 ^ 16
    → clamp16 (shift15 (mul32 (add32 (add32 0 (int32_of x)) (int32_of y)) 23170)) ≡ scaled_pair x y
unfolding clamp16 shift15 int32_of scaled_pair up down
pair_lem x y h g = ground (arith, h, g)

unfoldable pub zip_with : (ℕ → ℕ → ℕ) → List ℕ → List ℕ → List ℕ
zip_with f [] ys = []
zip_with f (x ∷ xs) [] = []
zip_with f (x ∷ xs) (y ∷ ys) = f x y ∷ zip_with f xs ys

succ_ne : (n : ℕ) → ¬ (suc n ≡ 0)
succ_ne n h = omega (arith, h)

cons_eq {ℓ} : {A : Type ℓ} {x y : A} {xs ys : List A} → x ≡ y → xs ≡ ys → x ∷ xs ≡ y ∷ ys
cons_eq h g = cc

add32_swap : (m x y : ℕ) → add32 (add32 m x) y ≡ add32 (add32 m y) x
add32_swap m x y = omega arith

mix_pair_lem :
    (n : ℕ) (p q : List ℕ)
    → length p ≡ n
    → length q ≡ n
    → All (λ x. x < 2 ^ 16) p
    → All (λ x. x < 2 ^ 16) q
    → attenuate 23170 (accumulate (accumulate (zeros n) p) q) ≡ zip_with scaled_pair p q
unfolding attenuate accumulate zeros zip_with
mix_pair_lem zero [] [] h g a b = refl
mix_pair_lem zero [] (y ∷ q) h g a b = absurd (succ_ne (length q) g)
mix_pair_lem zero (x ∷ p) q h g a b = absurd (succ_ne (length p) h)
mix_pair_lem (suc n) [] q h g a b = absurd (succ_ne n (sym h))
mix_pair_lem (suc n) (x ∷ p) [] h g a b = absurd (succ_ne n (sym g))
mix_pair_lem (suc n) (x ∷ p) (y ∷ q) h g a b =
    cons_eq (pair_lem x y a.0 b.0)
      (mix_pair_lem n p q (omega (arith, h)) (omega (arith, g)) a.1 b.1)

accumulate_comm : (m p q : List ℕ) → accumulate (accumulate m p) q ≡ accumulate (accumulate m q) p
unfolding accumulate
accumulate_comm m [] q = refl
accumulate_comm [] (x ∷ p) [] = refl
accumulate_comm [] (x ∷ p) (y ∷ q) = refl
accumulate_comm (m ∷ ms) (x ∷ p) [] = refl
accumulate_comm (m ∷ ms) (x ∷ p) (y ∷ q) =
    cons_eq (add32_swap m (int32_of x) (int32_of y)) (accumulate_comm ms p q)

-- Two sources of 16-bit samples, of the accumulator's size, never overflow the 32-bit arithmetic:
-- each sample of the mix is the exact sum times 23170/2¹⁵, rounded down and clamped to 16 bits.
pub mix-pair :
    (p q : List ℕ)
    → length p ≡ length q
    → All (λ x. x < 2 ^ 16) p
    → All (λ x. x < 2 ^ 16) q
    → mix (length q) (p ∷ q ∷ []) ≡ zip_with scaled_pair p q
unfolding mix accumulate_all
mix-pair p q h a b =
    subst
      (λ s. attenuate s (accumulate (accumulate (zeros (length q)) p) q) ≡ zip_with scaled_pair p q)
      (sym scale_of_two) (mix_pair_lem (length q) p q h refl a b)

accumulate_all-Permᴰ :
    (fs gs : List (List ℕ)) → Permᴰ fs gs → (m : List ℕ) → accumulate_all m fs ≡ accumulate_all m gs
unfolding accumulate_all
accumulate_all-Permᴰ [] [] nil m = refl
accumulate_all-Permᴰ (f ∷ fs) (g ∷ gs) (cons e p) m =
    accumulate_all-Permᴰ fs gs p (accumulate m f) ∙ ap (λ x. accumulate_all (accumulate m x) gs) e
accumulate_all-Permᴰ (f ∷ g ∷ fs) (g' ∷ f' ∷ fs') (swap e d) m =
    ap (λ x. accumulate_all x fs) (accumulate_comm m f g)
    ∙ ap (λ x. accumulate_all (accumulate (accumulate m x) f) fs) d
    ∙ ap (λ x. accumulate_all (accumulate (accumulate m g') x) fs) e
accumulate_all-Permᴰ fs gs (trans {l₂ = hs} p q) m =
    accumulate_all-Permᴰ fs hs p m ∙ accumulate_all-Permᴰ hs gs q m

length-Permᴰ : (fs gs : List (List ℕ)) → Permᴰ fs gs → length fs ≡ length gs
length-Permᴰ [] [] nil = refl
length-Permᴰ (f ∷ fs) (g ∷ gs) (cons e p) = ap suc (length-Permᴰ fs gs p)
length-Permᴰ (f ∷ g ∷ fs) (g' ∷ f' ∷ fs') (swap e d) = refl
length-Permᴰ fs gs (trans {l₂ = hs} p q) = length-Permᴰ fs hs p ∙ length-Permᴰ hs gs q

-- The mix does not depend on the order of the frames, which is the order of a Go map.
pub mix-Perm : (size : ℕ) (fs gs : List (List ℕ)) → Perm fs gs → mix size fs ≡ mix size gs
unfolding mix
mix-Perm size fs gs p = ∥∥₁_elim p (hlevel) (λ d.
    ap (λ n. attenuate (scale_of n) (accumulate_all (zeros size) fs)) (length-Permᴰ fs gs d)
    ∙ ap (attenuate (scale_of (length gs))) (accumulate_all-Permᴰ fs gs d (zeros size)))
