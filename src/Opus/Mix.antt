-- ===== src/Opus/Mix.antt =====
-- internal/opus/mixer.go: the arithmetic of `mixAndEncode`. A sample is a 16-bit word and a sum a
-- 32-bit word, both in two's complement, so that the wrap-around of Go's int32 is that of the code.
pub mod Sums
use go_discord_caller.Base.{
  ltb, leb, if◌then◌else◌, nat_eq, string_eq, pair_eq, nat_zero, bool_zero, list_zero, string_zero,
  length, ℕ, zero, suc, ◌+◌, ◌-◌, ◌*◌, ◌/◌, ◌%◌, ◌^◌, ◌≤◌, ◌<◌, min, max, ap, List, [], ◌∷◌, arith,
}

-- `int32(pcm[i])`
unfoldable pub int32_of : ℕ → ℕ
int32_of x = if ltb x (2 ^ 15) then x else x + (2 ^ 32 - 2 ^ 16)

-- `+=` and `*` on int32.
abbrev pub add32 : ℕ → ℕ → ℕ
add32 a b = (a + b) % 2 ^ 32

abbrev pub mul32 : ℕ → ℕ → ℕ
mul32 a b = (a * b) % 2 ^ 32

-- `>>15` on int32, which copies the sign.
unfoldable pub shift15 : ℕ → ℕ
shift15 a = if ltb a (2 ^ 31) then a / 2 ^ 15 else a / 2 ^ 15 + (2 ^ 32 - 2 ^ 17)

-- `int16(max(math.MinInt16, min(math.MaxInt16, a)))`
unfoldable pub clamp16 : ℕ → ℕ
clamp16 a =
    if ltb a (2 ^ 31)
    then min a (2 ^ 15 - 1)
    else if ltb a (2 ^ 32 - 2 ^ 15)
    then 2 ^ 15
    else a % 2 ^ 16

-- `int32(float64(1<<15) / math.Sqrt(n))` for n above 0: the greatest s with s² n ≤ 2³⁰, found bit
-- by bit.
unfoldable pub scale_bits : ℕ → ℕ → ℕ → ℕ
scale_bits zero n s = s
scale_bits (suc k) n s =
    let t = s + 2 ^ k in if leb (t * t * n) (2 ^ 30) then scale_bits k n t else scale_bits k n s

unfoldable pub scale_of : ℕ → ℕ
unfolding scale_bits
scale_of n = scale_bits 16 n 0

-- The loop that adds one frame. A frame has no more samples than the accumulator.
unfoldable pub accumulate : List ℕ → List ℕ → List ℕ
unfolding int32_of
accumulate mixed [] = mixed
accumulate [] (x ∷ pcm) = []
accumulate (m ∷ mixed) (x ∷ pcm) = add32 m (int32_of x) ∷ accumulate mixed pcm

unfoldable pub accumulate_all : List ℕ → List (List ℕ) → List ℕ
unfolding accumulate
accumulate_all mixed [] = mixed
accumulate_all mixed (f ∷ frames) = accumulate_all (accumulate mixed f) frames

-- `clear(m.mixed)`, of the given size.
unfoldable pub zeros : ℕ → List ℕ
zeros zero = []
zeros (suc n) = 0 ∷ zeros n

-- The loop that scales the sums.
unfoldable pub attenuate : ℕ → List ℕ → List ℕ
unfolding clamp16 shift15
attenuate scale [] = []
attenuate scale (v ∷ mixed) = clamp16 (shift15 (mul32 v scale)) ∷ attenuate scale mixed

-- The samples that go to the encoder.
unfoldable pub mix : ℕ → List (List ℕ) → List ℕ
unfolding accumulate_all zeros attenuate scale_of
mix size frames = attenuate (scale_of (length frames)) (accumulate_all (zeros size) frames)
